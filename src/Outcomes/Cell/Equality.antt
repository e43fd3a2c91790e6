-- ===== src/Outcomes/Cell/Equality.antt =====
-- Equality of the cells of src/lab_commons/outcomes/cell.py.
use lab_commons.Commons.{
  String, ◌≡◌, refl, Bool, true, false, ◌||◌, Option, none, some, [], ◌∷◌, arith, All, any, eq_refl,
  ==_refl, &&-true, &&-intro,
}
use lab_commons.Commons.Dict.{Dict}
use lab_commons.Outcomes.Status.{ordinal}
use lab_commons.Outcomes.Status.Tokens.{status_eq_iff, status_eq_refl}
use lab_commons.Outcomes.Plain.{Number, num_eq, num_eq_refl, is_nan, nonneg, nan}
use lab_commons.Outcomes.Cell.Parts.{
  Reason, Cost, Cell, cell_eq, reason_eq, cost_eq, option_eq, item_eq, subset_items, measured,
}
use lab_commons.Outcomes.Cell.Invariants.{IsReal, IsSound, CostIsSound}

item_eq_refl : (i : String × Number) → IsReal i → item_eq i i ≡ true
item_eq_refl (k, n) h = &&-intro _ _ (eq_refl k) (num_eq_refl n h)

-- Any item of the front part is found in the whole.
subset_grow :
    (i : String × Number) (d e : Dict Number)
    → subset_items d e ≡ true
    → subset_items d (i ∷ e) ≡ true
subset_grow i [] e h = refl
subset_grow i (j ∷ d) e h =
    let (a, b) = &&-true (any (item_eq j) e) (subset_items d e) h in
    &&-intro _ _ (or_right (item_eq j i) (any (item_eq j) e) a) (subset_grow i d e b)
  where
    or_right : (x y : Bool) → y ≡ true → (x || y) ≡ true
    or_right x y q = ground arith

subset_refl : (d : Dict Number) → All IsReal d → subset_items d d ≡ true
subset_refl [] h = refl
subset_refl (i ∷ d) h =
    &&-intro _ _ (or_left (item_eq i i) (any (item_eq i) d) (item_eq_refl i h.0))
      (subset_grow i d d (subset_refl d h.1))
  where
    or_left : (x y : Bool) → x ≡ true → (x || y) ≡ true
    or_left x y q = ground arith

reason_eq_refl : (r : Option Reason) → option_eq reason_eq r r ≡ true
reason_eq_refl none = refl
reason_eq_refl (some r) = &&-intro _ _ (eq_refl r.kind) (eq_refl r.text)

nonneg-real : (n : Number) → nonneg n ≡ true → is_nan n ≡ false
unfolding nonneg
nonneg-real nan h = cc
nonneg-real _ h = ground arith

measured_eq_refl : (o : Option Number) → measured o ≡ true → option_eq num_eq o o ≡ true
measured_eq_refl none h = refl
measured_eq_refl (some n) h = num_eq_refl n (nonneg-real n h)

cost_eq_refl : (k : Option Cost) → CostIsSound k → option_eq cost_eq k k ≡ true
cost_eq_refl none h = refl
cost_eq_refl (some k) h =
    &&-intro _ _ (&&-intro _ _ (measured_eq_refl k.wall_s h.0) (measured_eq_refl k.cpu_s h.1))
      (measured_eq_refl k.peak_memory_bytes h.2)

-- A sound cell equals itself.
pub cell_eq_refl : (c : Cell) → IsSound c → cell_eq c c ≡ true
unfolding cell_eq
cell_eq_refl c h =
    &&-intro _ _
      (&&-intro _ _
        (&&-intro _ _
          (&&-intro _ _ (status_eq_refl c.status)
            (&&-intro _ _ (subset_refl c.values h.real) (subset_refl c.values h.real)))
          (reason_eq_refl c.reason))
        (==_refl (ordinal c.evidence)))
      (cost_eq_refl c.cost h.costed)

-- Equal cells have one status.
pub cell_eq-status : (a b : Cell) → cell_eq a b ≡ true → a.status ≡ b.status
unfolding cell_eq
cell_eq-status a b h = (status_eq_iff a.status b.status).0 (ground arith)
