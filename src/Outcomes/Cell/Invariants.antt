-- ===== src/Outcomes/Cell/Invariants.antt =====
-- The invariants of the cells of src/lab_commons/outcomes/cell.py.
use lab_commons.Commons.{
  String, ◌≡◌, refl, Bool, true, false, ◌||◌, Option, none, some, [], ◌∷◌, arith, All, Result,
  if◌then◌else◌, ok, err, Error, >>=-eq-ok, guard-eq-ok, ok_inj, subst, traverse,
}
use lab_commons.Commons.Dict.{Dict}
use lab_commons.Outcomes.Status.{Status, Evidence}
use lab_commons.Outcomes.Plain.{
  Plain, null, num, obj, Fields, Number, int, float, infinity, minus_infinity, nan, is_nan,
  get_field, need_field,
}
use lab_commons.Outcomes.Cell.Parts.{
  Reason, make_reason, Cost, make_cost, Cell, make_cell, number, number_item, carries_values,
  needs_no_reason, is_empty, is_some, is_token, measured,
}
use lab_commons.Outcomes.Cell.Stored.{
  cell_from_plain, status_from, values_from, text_from, reason_from, evidence_from, measure_from,
  cost_from, cost_keys, string_or,
}

abbrev pub ReasonIsSound : Option Reason → Type 0
ReasonIsSound none = Unit
ReasonIsSound (some r) = is_token r.kind ≡ true

abbrev pub CostIsSound : Option Cost → Type 0
CostIsSound none = Unit
CostIsSound (some c) =
    (measured c.wall_s ≡ true) × (measured c.cpu_s ≡ true) × (measured c.peak_memory_bytes ≡ true)

abbrev pub IsReal : String × Number → Type 0
IsReal i = is_nan i.1 ≡ false

-- Values only with OK and PARTIAL, a reason for all but OK and PENDING, no NaN among the values, a
-- machine token as the reason's kind, no negative or NaN cost.
pub record IsSound (c : Cell) : Type 0 where
  pub carries : (is_empty c.values || carries_values c.status) ≡ true
  pub reasoned : (is_some c.reason || needs_no_reason c.status) ≡ true
  pub real : All IsReal c.values
  pub tokened : ReasonIsSound c.reason
  pub costed : CostIsSound c.cost

number-real : (p : Plain) (n : Number) → number p ≡ ok n → is_nan n ≡ false
unfolding number
number-real (num (int k)) n h = ground arith
number-real (num (float k)) n h = ground arith
number-real (num infinity) n h = ground arith
number-real (num minus_infinity) n h = ground arith
number-real (num nan) n h = cc
number-real _ n h = cc

number_item-IsReal : (i : String × Plain) (j : String × Number) → number_item i ≡ ok j → IsReal j
unfolding number_item
number_item-IsReal (k, p) j h =
    let (n, e, f) = >>=-eq-ok (number p) (λ m. ok (k, m)) h in ground (arith, number-real p n e)

traverse-IsReal : (d : Dict Plain) (e : Dict Number) → traverse number_item d ≡ ok e → All IsReal e
traverse-IsReal [] e h = ground arith
traverse-IsReal (i ∷ d) e h =
    let (j, hj, h') = >>=-eq-ok (number_item i) _ h in
    let (js, hjs, h'') = >>=-eq-ok (traverse number_item d) _ h' in
    subst (All IsReal) (ok_inj h'') (number_item-IsReal i j hj, traverse-IsReal d js hjs)

-- What the constructor makes of sound parts is sound.
pub make_cell-IsSound :
    (s : Status) (d : Dict Plain) (r : Option Reason) (e : Evidence) (k : Option Cost) (c : Cell)
    → ReasonIsSound r
    → CostIsSound k
    → make_cell s d r e k ≡ ok c
    → IsSound c
unfolding make_cell
make_cell-IsSound s d r e k c hr hk h =
    let (vs, hv, h') = >>=-eq-ok (traverse number_item d) _ h in
    let (hc, h1) = guard-eq-ok _ Error.value_error _ h' in
    let (hn, h2) = guard-eq-ok _ Error.value_error _ h1 in
    subst IsSound (ok_inj h2) (record {
      carries = hc;
      reasoned = hn;
      real = traverse-IsReal d vs hv;
      tokened = hr;
      costed = hk;
    })

if-ok {ℓ} :
    {A : Type ℓ} (b : Bool) (m : Result A) (e : Error) {a : A}
    → (if b then m else err e) ≡ ok a
    → (b ≡ true) × (m ≡ ok a)
if-ok true m e h = (refl, h)
if-ok false m e h = cc

make_reason-token : (k t : String) (r : Reason) → make_reason k t ≡ ok r → is_token r.kind ≡ true
unfolding make_reason
make_reason-token k t r h =
    let (q, e) = guard-eq-ok (is_token k) Error.value_error _ h in
    subst (λ (x : Reason). is_token x.kind ≡ true) (ok_inj e) q

make_cost-CostIsSound :
    (w u p : Option Number) (c : Cost) → make_cost w u p ≡ ok c → CostIsSound (some c)
unfolding make_cost
make_cost-CostIsSound w u p c h =
    let (hw, h1) = guard-eq-ok (measured w) Error.value_error _ h in
    let (hu, h2) = guard-eq-ok (measured u) Error.value_error _ h1 in
    let (hp, h3) = guard-eq-ok (measured p) Error.value_error _ h2 in
    subst (λ x. CostIsSound (some x)) (ok_inj h3) (hw, hu, hp)

reason_from-ReasonIsSound :
    (p : Option Plain) (r : Option Reason) → reason_from p ≡ ok r → ReasonIsSound r
reason_from-ReasonIsSound none r h = subst ReasonIsSound (ok_inj h) tt
reason_from-ReasonIsSound (some null) r h = subst ReasonIsSound (ok_inj h) tt
reason_from-ReasonIsSound (some (obj fs)) r h =
    let (raw, _, h1) = >>=-eq-ok (need_field "kind" fs) _ h in
    let (kind, _, h2) = >>=-eq-ok (string_or Error.value_error raw) _ h1 in
    let (text, _, h3) = >>=-eq-ok (text_from (get_field "text" fs)) _ h2 in
    let (made, e, h4) = >>=-eq-ok (make_reason kind text) _ h3 in
    subst ReasonIsSound (ok_inj h4) (make_reason-token kind text made e)
reason_from-ReasonIsSound (some _) r h = cc

cost_from-CostIsSound : (p : Option Plain) (c : Option Cost) → cost_from p ≡ ok c → CostIsSound c
cost_from-CostIsSound none c h = subst CostIsSound (ok_inj h) tt
cost_from-CostIsSound (some null) c h = subst CostIsSound (ok_inj h) tt
cost_from-CostIsSound (some (obj fs)) c h =
    let (_, h0) = if-ok (cost_keys fs) _ _ h in
    let (wall, _, h1) = >>=-eq-ok (measure_from (get_field "wall_s" fs)) _ h0 in
    let (cpu, _, h2) = >>=-eq-ok (measure_from (get_field "cpu_s" fs)) _ h1 in
    let (peak, _, h3) = >>=-eq-ok (measure_from (get_field "peak_memory_bytes" fs)) _ h2 in
    let (made, e, h4) = >>=-eq-ok (make_cost wall cpu peak) _ h3 in
    subst CostIsSound (ok_inj h4) (make_cost-CostIsSound wall cpu peak made e)
cost_from-CostIsSound (some _) c h = cc

-- Every line that `Cell.from_plain` accepts, whoever wrote it, gives a cell with all the invariants.
pub cell_from_plain-IsSound : (line : Fields) (c : Cell) → cell_from_plain line ≡ ok c → IsSound c
unfolding cell_from_plain
cell_from_plain-IsSound line c h =
    let (spelled, _, h1) = >>=-eq-ok (need_field "status" line) _ h in
    let (s, _, h2) = >>=-eq-ok (status_from spelled) _ h1 in
    let (d, _, h3) = >>=-eq-ok (values_from (get_field "values" line)) _ h2 in
    let (r, hr, h4) = >>=-eq-ok (reason_from (get_field "reason" line)) _ h3 in
    let (e, _, h5) = >>=-eq-ok (evidence_from (get_field "evidence" line)) _ h4 in
    let (k, hk, h6) = >>=-eq-ok (cost_from (get_field "cost" line)) _ h5 in
    make_cell-IsSound s d r e k c (reason_from-ReasonIsSound (get_field "reason" line) r hr)
      (cost_from-CostIsSound (get_field "cost" line) k hk) h6
