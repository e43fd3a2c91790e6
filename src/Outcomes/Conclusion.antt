-- ===== src/Outcomes/Conclusion.antt =====
-- src/lab_commons/outcomes/conclusion.py: what a selection of tasks concludes.
pub mod Order
pub mod Verdicts
use lab_commons.Commons.{
  Bool, true, false, not, ◌&&◌, ◌||◌, Option, none, some, List, [], ◌∷◌, if◌then◌else◌,
}
use lab_commons.Outcomes.Status.{Status}
use lab_commons.Outcomes.Cell.Parts.{Cell}
use lab_commons.Outcomes.Expectation.{Expectation, default_expectation, met_by}

pub data Conclusion : Type 0 where
  inconclusive pass fail : Conclusion

-- `conclusion.settled`
unfoldable pub settled : Conclusion → Bool
settled inconclusive = false
settled _ = true

-- The first part of a selected pair is a cell or a bare status.
pub data Outcome : Type 0 where
  of_cell : Cell → Outcome
  of_status : Status → Outcome

unfoldable pub outcome_status : Outcome → Status
outcome_status (of_cell c) = c.status
outcome_status (of_status s) = s

abbrev pub Selected : Type 0
Selected = Outcome × Option Expectation

-- `(expectation or Expectation.default()).met_by(status)`
unfoldable pub met : Selected → Option Bool
unfolding outcome_status met_by
met (o, none) = met_by default_expectation (outcome_status o)
met (o, some e) = met_by e (outcome_status o)

abbrev pub is_false : Option Bool → Bool
is_false (some false) = true
is_false _ = false

abbrev pub is_none : Option Bool → Bool
is_none none = true
is_none (some _) = false

-- The loop of `Conclusion.over` from its two flags on.
unfoldable pub over_from : Bool → Bool → List Selected → Conclusion
unfolding met
over_from answered unanswered [] = if answered && not unanswered then pass else inconclusive
over_from answered unanswered (one ∷ rest) =
    let next = over_from true (unanswered || is_none (met one)) rest in
    if is_false (met one) then fail else next

-- `Conclusion.over(selection)`
unfoldable pub over : List Selected → Conclusion
unfolding over_from
over selection = over_from false false selection
