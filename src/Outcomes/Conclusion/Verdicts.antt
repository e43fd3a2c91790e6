-- ===== src/Outcomes/Conclusion/Verdicts.antt =====
-- `Conclusion.over` of src/lab_commons/outcomes/conclusion.py, verdict by verdict.
use lab_commons.Commons.{
  ◌≡◌, refl, Bool, true, false, not, ◌&&◌, ◌||◌, none, some, List, [], ◌∷◌, arith, any, all,
  if◌then◌else◌,
}
use lab_commons.Outcomes.Status.{Status, ok_status, not_applicable, decided, status_eq}
use lab_commons.Outcomes.Expectation.{met_by}
use lab_commons.Outcomes.Conclusion.{
  pass, fail, inconclusive, Selected, outcome_status, met, is_false, is_none, over_from, over,
}

abbrev pub expected : Selected → Status
expected (o, none) = ok_status
expected (o, some e) = e.status

-- The question does not apply, or the status is the expected one.
abbrev pub agrees : Selected → Bool
agrees one =
    status_eq (outcome_status one.0) not_applicable
    || status_eq (outcome_status one.0) (expected one)

-- A decided outcome that does not meet its expectation, and one that does.
abbrev pub misses : Selected → Bool
misses one = decided (outcome_status one.0) && not (agrees one)

abbrev pub meets : Selected → Bool
meets one = decided (outcome_status one.0) && agrees one

met-eq :
    (one : Selected)
    → (is_false (met one) ≡ misses one) × (is_none (met one) ≡ not (decided (outcome_status one.0)))
unfolding met met_by
met-eq (o, none) = ground arith
met-eq (o, some e) = ground arith

abbrev pub is_nonempty : List Selected → Bool
is_nonempty [] = false
is_nonempty (x ∷ xs) = true

over_from_lem :
    (a u : Bool) (sel : List Selected)
    → over_from a u sel ≡ (
        if any misses sel
        then fail
        else if (a || is_nonempty sel) && not u && all meets sel
        then pass
        else inconclusive)
unfolding over_from
over_from_lem a u [] = ground arith
over_from_lem a u (one ∷ rest) =
    ground (arith, met-eq one, over_from_lem true (u || is_none (met one)) rest)

-- FAIL exactly when some decided outcome does not meet its expectation, which NOT_APPLICABLE always meets and
-- any other status only as the expected one; else PASS exactly when there is an outcome and every one is
-- decided and meets its expectation; else INCONCLUSIVE, as for the empty selection.
pub over_verdict :
    (sel : List Selected)
    → over sel ≡ (
        if any misses sel
        then fail
        else if is_nonempty sel && all meets sel
        then pass
        else inconclusive)
unfolding over
over_verdict [] = refl
over_verdict (one ∷ rest) = over_from_lem false false (one ∷ rest)
