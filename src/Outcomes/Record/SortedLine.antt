-- ===== src/Outcomes/Record/SortedLine.antt =====
-- `from_plain` of src/lab_commons/outcomes/cell.py, expectation.py and record.py on a line whose keys are in
-- order, as `append` writes it.
use lab_commons.Commons.{
  ◌≡◌, refl, ap, ◌∙◌, Option, none, some, [], ◌∷◌, arith, Result, ok, err, Error, ◌>>=◌,
}
use lab_commons.Commons.Dict.{Dict}
use lab_commons.Outcomes.Status.Tokens.{parse_status-value, parse_evidence-token}
use lab_commons.Outcomes.Status.{Status, Evidence}
use lab_commons.Outcomes.Plain.{Plain, Number, Fields, get_field}
use lab_commons.Outcomes.KeyOrder.{sort_plain, sort_fields, sort_option, get_field-sort}
use lab_commons.Outcomes.Cell.Parts.{Cell, make_cell, Reason, Cost}
use lab_commons.Outcomes.Cell.Stored.{
  to_fields, from_fields, cell_to_plain, cell_from_plain, values_from, reason_from, cost_from,
  cost_to_plain, status_from, evidence_from,
}
use lab_commons.Outcomes.Cell.Invariants.{IsSound, ReasonIsSound, CostIsSound}
use lab_commons.Outcomes.Cell.RoundTrip.{make_reason-eq, make_cost-eq, cost_of, cell_of, make_back}
use lab_commons.Outcomes.Expectation.{
  Expectation, make_expectation, expectation_to_plain, expectation_from_plain,
}
use lab_commons.Outcomes.Expectation.RoundTrip.{IsDeclared}

-- The values of the cell are in the order of their names.
abbrev pub HasOrder : Cell → Type 0
HasOrder c = sort_fields (to_fields c.values) ≡ to_fields c.values

cost_fields_sorted :
    (w u p : Option Number)
    → CostIsSound (some (cost_of w u p))
    → cost_from (some (sort_plain (cost_to_plain (cost_of w u p)))) ≡ ok (some (cost_of w u p))
unfolding cost_to_plain get_field sort_plain
cost_fields_sorted w u p h = ground (arith, make_cost-eq (cost_of w u p) h.0 h.1 h.2)

module _ (s : Status) (e : Evidence) where
  values_sorted :
      (d : Dict Number) (r : Option Reason) (k : Option Cost)
      → sort_fields (to_fields d) ≡ to_fields d
      → values_from (sort_option (get_field "values" (cell_to_plain (cell_of s e d r k))))
        ≡ ok (from_fields (to_fields d))
  unfolding cell_to_plain get_field from_fields sort_plain
  values_sorted [] none none h = refl
  values_sorted [] none (some k) h = refl
  values_sorted [] (some r) none h = refl
  values_sorted [] (some r) (some k) h = refl
  values_sorted (i ∷ d) r k h = ap (λ (fs : Fields). ok (from_fields fs)) h

  reason_sorted :
      (d : Dict Number) (r : Option Reason) (k : Option Cost)
      → ReasonIsSound r
      → reason_from (sort_option (get_field "reason" (cell_to_plain (cell_of s e d r k)))) ≡ ok r
  unfolding cell_to_plain get_field sort_plain
  reason_sorted [] none none h = refl
  reason_sorted [] none (some k) h = refl
  reason_sorted (i ∷ d) none none h = refl
  reason_sorted (i ∷ d) none (some k) h = refl
  reason_sorted [] (some r) k h = rw (make_reason-eq r h)
  reason_sorted (i ∷ d) (some r) k h = rw (make_reason-eq r h)

  cost_sorted :
      (d : Dict Number) (r : Option Reason) (k : Option Cost)
      → CostIsSound k
      → cost_from (sort_option (get_field "cost" (cell_to_plain (cell_of s e d r k)))) ≡ ok k
  unfolding cell_to_plain get_field
  cost_sorted [] none none h = refl
  cost_sorted [] (some r) none h = refl
  cost_sorted (i ∷ d) none none h = refl
  cost_sorted (i ∷ d) (some r) none h = refl
  cost_sorted [] none (some k) h = cost_fields_sorted k.wall_s k.cpu_s k.peak_memory_bytes h
  cost_sorted [] (some r) (some k) h = cost_fields_sorted k.wall_s k.cpu_s k.peak_memory_bytes h
  cost_sorted (i ∷ d) none (some k) h = cost_fields_sorted k.wall_s k.cpu_s k.peak_memory_bytes h
  cost_sorted (i ∷ d) (some r) (some k) h =
      cost_fields_sorted k.wall_s k.cpu_s k.peak_memory_bytes h

-- `cell_from_plain` of the fields that it reads.
abbrev cell_parts :
    Option Plain → Option Plain → Option Plain → Option Plain → Option Plain → Result Cell
cell_parts status values reason evidence cost = do
  spelled ← elim status [ none ↦ err Error.key_error | some v ↦ ok v ]
  status' ← status_from spelled
  values' ← values_from values
  reason' ← reason_from reason
  evidence' ← evidence_from evidence
  cost' ← cost_from cost
  make_cell status' values' reason' evidence' cost'

cell_from_plain-parts :
    (fs : Fields)
    → cell_from_plain fs
      ≡ cell_parts
          (get_field "status" fs)
          (get_field "values" fs)
          (get_field "reason" fs)
          (get_field "evidence" fs)
          (get_field "cost" fs)
unfolding cell_from_plain
cell_from_plain-parts fs = refl

cell_parts-sorted :
    (fs : Fields)
    → cell_from_plain (sort_fields fs)
      ≡ cell_parts
          (sort_option (get_field "status" fs))
          (sort_option (get_field "values" fs))
          (sort_option (get_field "reason" fs))
          (sort_option (get_field "evidence" fs))
          (sort_option (get_field "cost" fs))
cell_parts-sorted fs = cell_from_plain-parts (sort_fields fs) ∙ (λ i.
    cell_parts (get_field-sort "status" fs i) (get_field-sort "values" fs i)
      (get_field-sort "reason" fs i) (get_field-sort "evidence" fs i) (get_field-sort "cost" fs i))

-- A sound cell whose values are in order is read back from its line with the keys in order.
pub from-sorted_cell :
    (c : Cell) → IsSound c → HasOrder c → cell_from_plain (sort_fields (cell_to_plain c)) ≡ ok c
unfolding cell_to_plain get_field sort_plain
from-sorted_cell c h o =
    cell_parts-sorted (cell_to_plain c)
    ∙ rw (parse_status-value c.status) (
        rw (values_sorted c.status c.evidence c.values c.reason c.cost o) (
          rw (reason_sorted c.status c.evidence c.values c.reason c.cost h.tokened) (
            rw (parse_evidence-token c.evidence) (
              rw (cost_sorted c.status c.evidence c.values c.reason c.cost h.costed)
                (make_back c.status c.evidence c.values c.reason c.cost h)))))

pub from-sorted_expectation :
    (e : Expectation)
    → IsDeclared e
    → expectation_from_plain (sort_fields (expectation_to_plain e)) ≡ ok e
unfolding expectation_from_plain expectation_to_plain make_expectation get_field sort_plain
from-sorted_expectation e h = rw (parse_status-value e.status) (rw (h.concludes, h.argued))
