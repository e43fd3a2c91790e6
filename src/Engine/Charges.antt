-- ===== src/Engine/Charges.antt =====
-- `charge` and `reap` of src/lab_commons/resources/engine.py: the balance of a consumable, and the rows
-- that a run gives back.
use lab_commons.Commons.{
  ℕ, ◌+◌, ◌≤◌, String, ◌≡◌, refl, sym, ap, ap₂, ◌∙◌, subst, Bool, true, false, ◌&&◌, ◌||◌, Option,
  List, [], ◌∷◌, ◌++◌, keep, any, str_eq, ltb, leb, eq_iff, eq_refl, arith, sum_of, ◌⊎◌,
  if◌then◌else◌, Bool-cases, inl, inr, Result, ok, ◌>>=◌, >>=-eq-ok, ok_inj, le→leb,
}
use lab_commons.Commons.Dict.{Dict, elem, keys}
use lab_commons.Compute.Resources.{amount}
use lab_commons.Compute.Unique.{IsUnique}
use lab_commons.Box.HoldLaws.{any-keep-not}
use lab_commons.Engine.Kinds.{Kind, kind_of}
use lab_commons.Engine.Store.{ChargeRow, Store, counts, charged, reap_store}
use lab_commons.Engine.Holds.{EngineHeld, same_kind, charge_of, charges_of, charge, is_returned}

-- What the charges of a name on a scope that still count come to.
abbrev counted : String → String → ℕ → List ChargeRow → ℕ
counted scope name now charges =
    sum_of (λ (c : ChargeRow). c.amount) (keep (counts scope name now) charges)

counted-append :
    (scope name : String) (now : ℕ) (charges more : List ChargeRow)
    → counted scope name now (charges ++ more)
      ≡ counted scope name now charges + counted scope name now more
counted-append scope name now [] more = omega arith
counted-append scope name now (c ∷ charges) more = elim (Bool-cases (counts scope name now c)) [
  | inl h ↦ rw h (omega (arith, counted-append scope name now charges more))
  | inr h ↦ rw h (counted-append scope name now charges more)
]

-- A charge past its window counts no more at that time, nor later.
counted-keep :
    (scope name : String) (now later : ℕ) (charges : List ChargeRow)
    → now ≤ later
    → counted scope name later (keep (λ (c : ChargeRow). leb now (c.at + c.window_s)) charges)
      ≡ counted scope name later charges
counted-keep scope name now later [] h = refl
counted-keep scope name now later (c ∷ charges) h =
    elim (Bool-cases (leb now (c.at + c.window_s))) [
      | inl e ↦ rw e (elim (Bool-cases (counts scope name later c)) [
        | inl f ↦ rw f (ap (λ n. c.amount + n) (counted-keep scope name now later charges h))
        | inr f ↦ rw f (counted-keep scope name now later charges h)
      ])
      | inr e ↦ rw e (rw (expired e) (counted-keep scope name now later charges h))
    ]
  where
    expired : leb now (c.at + c.window_s) ≡ false → counts scope name later c ≡ false
    expired e = ground (arith, e, h)

-- Dropping the charges past their windows changes no balance, at that time or later.
pub reap-charged :
    (same_process : ℕ → Option ℕ → Bool) (answers : List String → Bool) (scope name : String)
    (now later : ℕ) (store : Store)
    → now ≤ later
    → charged scope name later (reap_store same_process answers now store)
      ≡ charged scope name later store
unfolding charged reap_store
reap-charged same_process answers scope name now later store h =
    counted-keep scope name now later store.charges h

module _ (is_tool : String → Bool) (window_of : String → Result (String × ℕ)) (scope what : String)
    (now : ℕ) (used : Dict ℕ) (name : String) where
  abbrev row_for : String → ℕ → ChargeRow
  row_for j window_s = record {
    scope = scope;
    name = j;
    amount = amount j used;
    at = now;
    window_s = window_s;
    what = what;
  }

  abbrev insert_if : String → Bool → Result (List ChargeRow)
  insert_if j b = if b then (window_of j >>= λ w. ok (row_for j w.1 ∷ [])) else ok []

  -- One name charges nothing, or one row.
  made_cases :
      (j : String) (b : Bool) (made : List ChargeRow)
      → insert_if j b ≡ ok made
      → (b ≡ false) × (made ≡ []) ⊎ (b ≡ true) × ((s : ℕ) × (made ≡ row_for j s ∷ []))
  made_cases j false made h = inl (refl, sym (ok_inj h))
  made_cases j true made h =
      let (w, _, f) = >>=-eq-ok (window_of j) _ h in inr (refl, (w.1, sym (ok_inj f)))

  charge_of-other :
      (j : String) (made : List ChargeRow)
      → charge_of is_tool window_of scope what now used j ≡ ok made
      → str_eq j name ≡ false
      → counted scope name now made ≡ 0
  charge_of-other j made h e =
      let (kind, _, f) = >>=-eq-ok (kind_of is_tool j) _ h in
      elim (made_cases j (same_kind kind Kind.consumable && ltb 0 (amount j used)) made f) [
        | inl (_, m) ↦ rw m refl
        | inr (_, (s, m)) ↦ rw m (rw e (rw (eq_refl scope) refl))
      ]

  charge_of-same :
      (made : List ChargeRow)
      → kind_of is_tool name ≡ ok Kind.consumable
      → charge_of is_tool window_of scope what now used name ≡ ok made
      → counted scope name now made ≡ amount name used
  charge_of-same made k h =
      let (kind, g, f) = >>=-eq-ok (kind_of is_tool name) _ h in
      let c : kind ≡ Kind.consumable = ok_inj (sym g ∙ k) in
      elim (made_cases name (same_kind kind Kind.consumable && ltb 0 (amount name used)) made f) [
        | inl (z, m) ↦ rw m (nothing kind c z)
        | inr (_, (s, m)) ↦
            rw m (rw (eq_refl scope) (rw (eq_refl name) (rw (in_window s) (omega arith))))
      ]
    where
      nothing :
          (kind : Kind)
          → kind ≡ Kind.consumable
          → (same_kind kind Kind.consumable && ltb 0 (amount name used)) ≡ false
          → 0 ≡ amount name used
      nothing Kind.consumable c z = ground (arith, z)
      nothing Kind.occupancy c z = cc
      nothing Kind.persistent c z = cc

      in_window : (s : ℕ) → leb now (now + s) ≡ true
      in_window s = le→leb now (now + s) (omega arith)

  charges_of-counted :
      (d : Dict ℕ) (made : List ChargeRow)
      → IsUnique d
      → kind_of is_tool name ≡ ok Kind.consumable
      → charges_of is_tool window_of scope what now used (keys d) ≡ ok made
      → counted scope name now made ≡ (if elem name (keys d) then amount name used else 0)
  unfolding charges_of
  charges_of-counted [] made u k h = rw (sym (ok_inj h)) refl
  charges_of-counted ((j, n) ∷ d) made u k h =
      let (here, e, f) = >>=-eq-ok (charge_of is_tool window_of scope what now used j) _ h in
      let (rest, g, m) =
        >>=-eq-ok (charges_of is_tool window_of scope what now used (keys d)) _ f in
      let split = counted-append scope name now here rest in
      let later = charges_of-counted d rest u.1 k g in
      rw (sym (ok_inj m)) (elim (Bool-cases (str_eq j name)) [
        | inl y ↦
            split
            ∙ ap₂ (λ a b. a + b)
                (charge_of-same here k (
                  subst (λ i. charge_of is_tool window_of scope what now used i ≡ ok here)
                    ((eq_iff j name).0 y) e))
                later
            ∙ first j name y u.0
        | inr z ↦ split ∙ ap₂ (λ a b. a + b) (charge_of-other j here e z) later ∙ skip j name z
      ])
    where
      first :
          (j i : String)
          → str_eq j i ≡ true
          → elem j (keys d) ≡ false
          → amount i used + (if elem i (keys d) then amount i used else 0)
            ≡ (if str_eq j i || elem i (keys d) then amount i used else 0)
      first j i y n = ground (arith, eq_iff j i, y, n)

      skip :
          (j i : String)
          → str_eq j i ≡ false
          → 0 + (if elem i (keys d) then amount i used else 0)
            ≡ (if str_eq j i || elem i (keys d) then amount i used else 0)
      skip j i z = ground (arith, z)

-- Ending a run charges each consumable of its demand with what the run used: its balance in its window
-- grows by that amount. And none of the run's rows is left that is not persistent. The demand names each
-- name once.
pub charge-charged :
    (is_tool : String → Bool) (window_of : String → Result (String × ℕ)) (held : EngineHeld)
    (used : Dict ℕ) (now : ℕ) (store after : Store) (name : String)
    → IsUnique held.claim.demand
    → elem name (keys held.claim.demand) ≡ true
    → kind_of is_tool name ≡ ok Kind.consumable
    → charge is_tool window_of held used now store ≡ ok after
    → (charged held.scope name now after ≡ charged held.scope name now store + amount name used)
      × (any (is_returned held.rows) after.rows ≡ false)
unfolding charge charged
charge-charged is_tool window_of held used now store after name u e k h =
    let demand = held.claim.demand in
    let (made, f, m) =
      >>=-eq-ok (charges_of is_tool window_of held.scope held.claim.what now used (keys demand)) _
        h in
    let c =
      charges_of-counted is_tool window_of held.scope held.claim.what now used name demand made u k
        f in
    subst
      (λ (s : Store).
        (charged held.scope name now s ≡ charged held.scope name now store + amount name used)
        × (any (is_returned held.rows) s.rows ≡ false))
      (ok_inj m)
      (
        counted-append held.scope name now store.charges made
            ∙ ap (λ n. counted held.scope name now store.charges + n) (c ∙ rw e refl),
        any-keep-not (is_returned held.rows) store.rows,
      )
