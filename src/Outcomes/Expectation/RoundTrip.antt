-- ===== src/Outcomes/Expectation/RoundTrip.antt =====
-- `to_plain` and `from_plain` of src/lab_commons/outcomes/expectation.py, one after the other.
use lab_commons.Commons.{◌≡◌, true, ok}
use lab_commons.Outcomes.Status.Tokens.{parse_status-value}
use lab_commons.Outcomes.Plain.{get_field}
use lab_commons.Outcomes.Expectation.{
  Expectation, expectable, says_something, make_expectation, expectation_to_plain,
  expectation_from_plain,
}

pub record IsDeclared (e : Expectation) : Type 0 where
  pub concludes : expectable e.status ≡ true
  pub argued : says_something e.why ≡ true

pub from-to_expectation :
    (e : Expectation) → IsDeclared e → expectation_from_plain (expectation_to_plain e) ≡ ok e
unfolding expectation_from_plain expectation_to_plain make_expectation get_field
from-to_expectation e h = rw (parse_status-value e.status) (rw (h.concludes, h.argued))
