-- ===== src/Engine/Within.antt =====
-- What `Engine._hold` of src/lab_commons/resources/engine.py holds on a scope, name by name.
use lab_commons.Commons.{
  ℕ, ◌+◌, ◌-◌, ◌≤◌, String, ◌≡◌, refl, sym, ap, ap₂, ◌∙◌, subst, Bool, true, false, Option, List,
  [], ◌∷◌, ◌++◌, map, keep, All, str_eq, eq_refl, arith, sum_of, Bool-cases, inl, inr, Result, ok,
  Error, >>=-eq-ok, guard-eq-ok, ok_inj,
}
use lab_commons.Commons.Dict.{Dict, keys}
use lab_commons.Compute.Resources.{
  Resources, amount, of_amounts, tabulate, union, add, add_all, total,
}
use lab_commons.Compute.Unique.{IsUnique, amount-of_amounts}
use lab_commons.Compute.Admission.{Supply, present, admits, counted_supply}
use lab_commons.Compute.Rule.{admit_iff}
use lab_commons.Box.Amounts.{of_amounts_twice}
use lab_commons.Engine.Kinds.{EngineClaim}
use lab_commons.Engine.Store.{EngineRow, Store, held_on, vector_of_row, reap_store}
use lab_commons.Engine.Holds.{
  Part, Holder, EngineHeld, Providers, rows_of_parts, parts_into, admit_on, hold_parts,
  has_distinct_kinds, supply, hold_claim, plugs_of, own_measure,
}
use lab_commons.Engine.Parts.{vector-columns}
use lab_commons.Engine.PartSums.{in_parts, part_amount, PartIsUnique, parts_into-amounts}

-- What is held of a name on a scope.
abbrev pub held_amount : String → String → Store → ℕ
held_amount k scope store = sum_of (amount k) (held_on scope store)

abbrev on_scope : String → EngineRow → Bool
on_scope scope r = str_eq r.scope scope

abbrev row_amounts : String → String → List EngineRow → ℕ
row_amounts k scope rows = sum_of (amount k) (map vector_of_row (keep (on_scope scope) rows))

row_amounts-append :
    (k scope : String) (rows more : List EngineRow)
    → row_amounts k scope (rows ++ more) ≡ row_amounts k scope rows + row_amounts k scope more
row_amounts-append k scope [] more = omega arith
row_amounts-append k scope (r ∷ rows) more = elim (Bool-cases (on_scope scope r)) [
  | inl h ↦ rw h (omega (arith, row_amounts-append k scope rows more))
  | inr h ↦ rw h (row_amounts-append k scope rows more)
]

module _ (scope : String) (claim : EngineClaim) (probe : List String) (holder : Holder) where
  rows_of_parts-amounts :
      (k : String) (n : ℕ) (parts : List Part)
      → All PartIsUnique parts
      → row_amounts k scope (rows_of_parts scope claim probe holder n parts)
        ≡ sum_of (part_amount k) parts
  unfolding rows_of_parts
  rows_of_parts-amounts k n [] h = refl
  rows_of_parts-amounts k n (p ∷ parts) h = rw (eq_refl scope) (
      ap₂ (λ a b. a + b) (vector-columns k p.demand h.0)
        (rows_of_parts-amounts k (n + 1) parts h.1))

module _ (measured : Supply) (claim : EngineClaim) (probe : List String) (holder : Holder)
    (parts : List Part) (store after : Store) (held : EngineHeld) (unique : IsUnique claim.demand)
    (returned : hold_parts measured claim probe holder parts store ≡ ok (held, after)) where
  hold_parts-admitted : (admit_on measured claim store).admitted ≡ true
  unfolding hold_parts
  hold_parts-admitted =
      (guard-eq-ok (admit_on measured claim store).admitted Error.not_admitted _ returned).0

  hold_parts-free :
      (k : String)
      → amount k claim.demand
        ≤ amount k (of_amounts measured.resources) - held_amount k measured.scope store
  unfolding admit_on admits counted_supply
  hold_parts-free k =
      let (_, f) =
        (admit_iff (record { repo = ""; sha = ""; producer = claim.what; needs = [] }) claim.demand
            (counted_supply measured.resources (present measured)) (held_on measured.scope store)).0
          hold_parts-admitted in
      subst (λ n. n ≤ amount k (of_amounts measured.resources) - held_amount k measured.scope store)
        (amount-of_amounts k claim.demand unique) (f k)

  hold_parts-amount :
      (k : String)
      → All PartIsUnique parts
      → held_amount k measured.scope after
        ≡ held_amount k measured.scope store + sum_of (part_amount k) parts
  unfolding hold_parts held_on
  hold_parts-amount k a =
      let g =
        (guard-eq-ok (admit_on measured claim store).admitted Error.not_admitted _ returned).1 in
      let rows = rows_of_parts measured.scope claim probe holder store.next_id parts in
      subst
        (λ (s : List EngineRow).
          row_amounts k measured.scope s
          ≡ row_amounts k measured.scope store.rows + sum_of (part_amount k) parts)
        (ap (λ (r : EngineHeld × Store). r.1.rows) (ok_inj g))
        (row_amounts-append k measured.scope store.rows rows
          ∙ ap (λ n. row_amounts k measured.scope store.rows + n)
              (rows_of_parts-amounts measured.scope claim probe holder k store.next_id parts a))

of_amounts-add_all :
    (a : Resources) (vs : List Resources)
    → of_amounts a ≡ a
    → of_amounts (add_all a vs) ≡ add_all a vs
unfolding add
of_amounts-add_all a [] h = h
of_amounts-add_all a (v ∷ vs) h =
    of_amounts-add_all (add a v) vs
      (of_amounts_twice (tabulate (λ k. amount k a + amount k v) (union (keys a) (keys v))))

-- A supply is on its scope, and its amounts are those of a vector.
supply_lem :
    (providers : Providers) (scope : String) (measured : Supply)
    → supply providers scope ≡ ok measured
    → (measured.scope ≡ scope) × (of_amounts measured.resources ≡ measured.resources)
unfolding supply total of_amounts
supply_lem providers scope measured h =
    let (plugs, _, f) = >>=-eq-ok (plugs_of providers scope) _ h in
    (
      ap (λ (s : Supply). s.scope) (sym (ok_inj f)),
      subst (λ (s : Supply). of_amounts s.resources ≡ s.resources) (ok_inj f)
          (of_amounts-add_all [] (map (own_measure scope) plugs) refl),
    )

-- A claim that is held adds exactly its demand to what the scope holds, name by name, and of every name
-- that it asks for the scope then holds no more than its providers measured. The demand names each name
-- once; other processes may have written between the reap and the lock.
pub hold_claim-within :
    (is_tool : String → Bool) (window_of : String → Result (String × ℕ)) (providers : Providers)
    (scope : String) (claim : EngineClaim) (probe : List String) (holder : Holder) (reaped_at : ℕ)
    (same_process : ℕ → Option ℕ → Bool) (answers : List String → Bool) (meanwhile : Store → Store)
    (before after : Store) (held : EngineHeld) (measured : Supply)
    → IsUnique claim.demand
    → supply providers scope ≡ ok measured
    → hold_claim is_tool window_of providers scope claim probe holder reaped_at same_process answers
        meanwhile before
      ≡ ok (held, after)
    → (k : String)
    → (held_amount k scope after
        ≡ held_amount k scope (meanwhile (reap_store same_process answers reaped_at before))
          + amount k claim.demand)
      × (1 ≤ amount k claim.demand → held_amount k scope after ≤ amount k measured.resources)
unfolding hold_claim
hold_claim-within is_tool window_of providers scope claim probe holder reaped_at same_process
      answers meanwhile before after held measured unique supplied returned k =
    let (parts, e, h) = >>=-eq-ok (parts_into is_tool window_of [] claim.demand) _ returned in
    let g = guard-eq-ok (has_distinct_kinds parts) Error.value_error _ h in
    let (found, s, r) = >>=-eq-ok (supply providers scope) _ g.1 in
    let store = meanwhile (reap_store same_process answers reaped_at before) in
    let (u, a) =
      parts_into-amounts is_tool window_of [] parts claim.demand e unique (fresh claim.demand) tt in
    let same : found ≡ measured = ok_inj (sym s ∙ supplied) in
    let (on_it, twice) = supply_lem providers scope found s in
    let grows = hold_parts-amount found claim probe holder parts store after held unique r k u in
    let free = hold_parts-free found claim probe holder parts store after held unique r k in
    let grown : held_amount k scope after
        ≡ held_amount k scope store + sum_of (part_amount k) parts =
      subst (λ sc. held_amount k sc after ≡ held_amount k sc store + sum_of (part_amount k) parts)
        on_it grows in
    let room : amount k claim.demand ≤ amount k measured.resources - held_amount k scope store =
      subst (λ v. amount k claim.demand ≤ amount k v - held_amount k scope store)
        (twice ∙ ap (λ (m : Supply). m.resources) same)
        (subst
          (λ sc.
            amount k claim.demand ≤ amount k (of_amounts found.resources) - held_amount k sc store)
          on_it free) in
    let parted = a k in (omega arith, λ asks. omega arith)
  where
    fresh : (d : Dict ℕ) → All (λ (i : String × ℕ). in_parts i.0 [] ≡ false) d
    fresh [] = tt
    fresh (i ∷ d) = (refl, fresh d)
