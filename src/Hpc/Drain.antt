-- ===== src/Hpc/Drain.antt =====
-- The region of src/lab_commons/hpc/region.py while a large task waits.
use lab_commons.Commons.{
  ℕ, suc, ◌+◌, ◌≡◌, refl, sym, ap, ◌∙◌, Bool, true, false, not, ◌&&◌, some, List, [], ◌∷◌, any, leb,
  ◌==◌, arith, if◌then◌else◌, ◌↔◌, inl, inr, Bool-cases,
}
use lab_commons.Hpc.Region.{
  Paging, Task, Snapshot, waits_large, first_waiting, region, waits_at, is_large, is_small, size_of,
  may_place,
}

first_waiting-waits :
    (paging : Paging) (i : ℕ) (snapshots : List Snapshot)
    → any (waits_large paging) snapshots ≡ true
    → (j : ℕ) × (first_waiting paging i snapshots ≡ some (i + j))
      × (waits_at paging j snapshots ≡ true)
unfolding first_waiting
first_waiting-waits paging i [] h = cc
first_waiting-waits paging i (s ∷ snapshots) h = elim (Bool-cases (waits_large paging s)) [
  | inl e ↦ let same : i ≡ i + 0 = omega arith in (0, rw e (ap some same), e)
  | inr e ↦
      let (j, f, w) = first_waiting-waits paging (suc i) snapshots (ground (arith, e, h)) in
      let same : suc i + j ≡ i + suc j = omega arith in (suc j, rw e (f ∙ ap some same), w)
]

placed :
    (large here little movable waiting : Bool)
    → waiting ≡ true
    → ((if large then here else if not here then true else (little && (movable && not waiting)))
        ≡ true)
      ↔ (large ≡ here)
placed true here little movable waiting w = (λ h. sym h, λ h. sym h)
placed false false little movable waiting w = (λ h. refl, λ h. refl)
placed false true little movable waiting w = (λ h. ground (arith, w, h), λ h. cc)

-- While a large task waits on one of several accounts, the region is an account where one waits, and a plan
-- may run on an account exactly when the plan is large and the account is the region, or neither is so.
pub may_place-waits :
    (index minutes : ℕ) (cost : Task) (s t : Snapshot) (snapshots : List Snapshot) (paging : Paging)
    (rerun_safe : Bool)
    → any (waits_large paging) (s ∷ t ∷ snapshots) ≡ true
    → (there : ℕ) × (region (s ∷ t ∷ snapshots) paging ≡ some there)
      × (waits_at paging there (s ∷ t ∷ snapshots) ≡ true)
      × ((may_place index minutes cost (s ∷ t ∷ snapshots) paging rerun_safe ≡ true)
          ↔ (is_large (size_of paging cost) ≡ (index == there)))
unfolding region may_place
may_place-waits index minutes cost s t snapshots paging rerun_safe h =
    let (j, f, w) = first_waiting-waits paging 0 (s ∷ t ∷ snapshots) h in
    let zero_plus : 0 + j ≡ j = omega arith in
    let found : first_waiting paging 0 (s ∷ t ∷ snapshots) ≡ some j = f ∙ ap some zero_plus in
    let there : region (s ∷ t ∷ snapshots) paging ≡ some j = rw (region, found) refl in
    (
      j,
      there,
      w,
      rw (may_place, there)
          (placed (is_large (size_of paging cost)) (index == j) (is_small (size_of paging cost))
            (rerun_safe && leb minutes paging.movable_minutes)
            (waits_at paging j (s ∷ t ∷ snapshots)) w),
    )
