-- ===== src/Outcomes/Cell/RoundTrip.antt =====
-- `to_plain` and `from_plain` of src/lab_commons/outcomes/cell.py, one after the other.
use lab_commons.Commons.{◌≡◌, refl, true, Option, none, some, [], ◌∷◌, arith, All, ok, traverse}
use lab_commons.Commons.Dict.{Dict}
use lab_commons.Outcomes.Status.{Status, Evidence}
use lab_commons.Outcomes.Status.Tokens.{parse_status-value, parse_evidence-token}
use lab_commons.Outcomes.Plain.{Number, int, nan, num, get_field}
use lab_commons.Outcomes.Cell.Parts.{
  Reason, make_reason, Cost, make_cost, Cell, make_cell, number, number_item, is_token, measured,
}
use lab_commons.Outcomes.Cell.Stored.{
  to_fields, from_fields, cell_to_plain, cell_from_plain, values_from, reason_from, cost_from,
  cost_to_plain,
}
use lab_commons.Outcomes.Cell.Invariants.{IsReal, IsSound, ReasonIsSound, CostIsSound}

number-num : (n : Number) → IsReal ("", n) → number (num n) ≡ ok n
unfolding number
number-num (int k) h = refl
number-num nan h = cc
number-num _ h = refl

traverse-fields :
    (d : Dict Number) → All IsReal d → traverse number_item (from_fields (to_fields d)) ≡ ok d
unfolding from_fields to_fields number_item
traverse-fields [] h = refl
traverse-fields ((k, n) ∷ d) h = rw (number-num n h.0) (rw (traverse-fields d h.1))

pub make_reason-eq : (r : Reason) → is_token r.kind ≡ true → make_reason r.kind r.text ≡ ok r
unfolding make_reason
make_reason-eq r h = rw h

pub make_cost-eq :
    (c : Cost)
    → measured c.wall_s ≡ true
    → measured c.cpu_s ≡ true
    → measured c.peak_memory_bytes ≡ true
    → make_cost c.wall_s c.cpu_s c.peak_memory_bytes ≡ ok c
unfolding make_cost
make_cost-eq c h i j = rw (h, i, j)

abbrev pub cost_of : Option Number → Option Number → Option Number → Cost
cost_of w u p = record { wall_s = w; cpu_s = u; peak_memory_bytes = p }

cost_fields_back :
    (w u p : Option Number)
    → CostIsSound (some (cost_of w u p))
    → cost_from (some (cost_to_plain (cost_of w u p))) ≡ ok (some (cost_of w u p))
unfolding cost_to_plain get_field
cost_fields_back w u p h = ground (arith, make_cost-eq (cost_of w u p) h.0 h.1 h.2)

cost_plain_back :
    (k : Cost) → CostIsSound (some k) → cost_from (some (cost_to_plain k)) ≡ ok (some k)
cost_plain_back k h = cost_fields_back k.wall_s k.cpu_s k.peak_memory_bytes h

module _ (s : Status) (e : Evidence) where
  abbrev pub cell_of : Dict Number → Option Reason → Option Cost → Cell
  cell_of d r k = record { status = s; values = d; reason = r; evidence = e; cost = k }

  values_back :
      (d : Dict Number) (r : Option Reason) (k : Option Cost)
      → values_from (get_field "values" (cell_to_plain (cell_of d r k)))
        ≡ ok (from_fields (to_fields d))
  unfolding cell_to_plain get_field from_fields
  values_back [] none none = refl
  values_back [] none (some k) = refl
  values_back [] (some r) none = refl
  values_back [] (some r) (some k) = refl
  values_back (i ∷ d) r k = refl

  reason_back :
      (d : Dict Number) (r : Option Reason) (k : Option Cost)
      → ReasonIsSound r
      → reason_from (get_field "reason" (cell_to_plain (cell_of d r k))) ≡ ok r
  unfolding cell_to_plain get_field
  reason_back [] none none h = refl
  reason_back [] none (some k) h = refl
  reason_back (i ∷ d) none none h = refl
  reason_back (i ∷ d) none (some k) h = refl
  reason_back [] (some r) k h = rw (make_reason-eq r h)
  reason_back (i ∷ d) (some r) k h = rw (make_reason-eq r h)

  cost_back :
      (d : Dict Number) (r : Option Reason) (k : Option Cost)
      → CostIsSound k
      → cost_from (get_field "cost" (cell_to_plain (cell_of d r k))) ≡ ok k
  unfolding cell_to_plain get_field
  cost_back [] none none h = refl
  cost_back [] (some r) none h = refl
  cost_back (i ∷ d) none none h = refl
  cost_back (i ∷ d) (some r) none h = refl
  cost_back [] none (some k) h = cost_plain_back k h
  cost_back [] (some r) (some k) h = cost_plain_back k h
  cost_back (i ∷ d) none (some k) h = cost_plain_back k h
  cost_back (i ∷ d) (some r) (some k) h = cost_plain_back k h

  pub make_back :
      (d : Dict Number) (r : Option Reason) (k : Option Cost)
      → IsSound (cell_of d r k)
      → make_cell s (from_fields (to_fields d)) r e k ≡ ok (cell_of d r k)
  unfolding make_cell
  make_back d r k h = rw (traverse-fields d h.real) (rw (h.carries, h.reasoned))

-- A sound cell is read back from its plain form, part by part.
pub from-to_plain : (c : Cell) → IsSound c → cell_from_plain (cell_to_plain c) ≡ ok c
unfolding cell_from_plain cell_to_plain get_field
from-to_plain c h = rw (parse_status-value c.status) (
    rw (values_back c.status c.evidence c.values c.reason c.cost) (
      rw (reason_back c.status c.evidence c.values c.reason c.cost h.tokened) (
        rw (parse_evidence-token c.evidence) (
          rw (cost_back c.status c.evidence c.values c.reason c.cost h.costed)
            (make_back c.status c.evidence c.values c.reason c.cost h)))))
