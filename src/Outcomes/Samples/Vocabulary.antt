-- ===== src/Outcomes/Samples/Vocabulary.antt =====
-- The theorems of the vocabulary, applied to the samples.
use lab_commons.Commons.{◌≡◌, refl, none, [], ◌∷◌, ok}
use lab_commons.Outcomes.Status.{
  ok_status, rejected, timeout, Evidence, value, parse_status, status_eq, token, parse_evidence,
  decided,
}
use lab_commons.Outcomes.Status.Tokens.{parse_status-value, parse_evidence-token}
use lab_commons.Outcomes.Cell.Parts.{make_cell, number_item, carries_values, needs_no_reason}
use lab_commons.Outcomes.Plain.{get_field}
use lab_commons.Outcomes.Cell.Stored.{cell_to_plain, cell_from_plain}
use lab_commons.Outcomes.Cell.Invariants.{IsSound, cell_from_plain-IsSound}
use lab_commons.Outcomes.Cell.RoundTrip.{from-to_plain}
use lab_commons.Outcomes.Conclusion.{over, outcome_status, of_cell, of_status, fail}
use lab_commons.Outcomes.Conclusion.Verdicts.{over_verdict}
use lab_commons.Outcomes.Samples.{timed_out, solved, timed_out-IsSound}

parse_status-value_example : parse_status (value timeout) ≡ ok timeout
parse_status-value_example = parse_status-value timeout

parse_evidence-token_example : parse_evidence (token Evidence.certified) ≡ ok Evidence.certified
parse_evidence-token_example = parse_evidence-token Evidence.certified

from-to_plain_example : cell_from_plain (cell_to_plain timed_out) ≡ ok timed_out
from-to_plain_example = from-to_plain timed_out timed_out-IsSound

solved_line : cell_from_plain (cell_to_plain solved) ≡ ok solved
unfolding cell_from_plain get_field cell_to_plain parse_status parse_evidence token make_cell
    number_item carries_values needs_no_reason
solved_line = refl

cell_from_plain-IsSound_example : IsSound solved
cell_from_plain-IsSound_example = cell_from_plain-IsSound (cell_to_plain solved) solved solved_line

over_verdict_example :
    over ((of_status ok_status, none) ∷ (of_cell timed_out, none) ∷ (of_status rejected, none) ∷ [])
    ≡ fail
unfolding decided outcome_status status_eq value
over_verdict_example =
    over_verdict
      ((of_status ok_status, none) ∷ (of_cell timed_out, none) ∷ (of_status rejected, none) ∷ [])
