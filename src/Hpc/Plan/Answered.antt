-- ===== src/Hpc/Plan/Answered.antt =====
-- `place` (src/lab_commons/hpc/affinity.py), `_answering` and `_holding` (hpc/jobs.py): whose grants they give back.
use lab_commons.Commons.{
  ◌≡◌, subst, Bool, true, false, not, ◌||◌, Option, none, some, List, [], ◌∷◌, any, keep, All,
  if◌then◌else◌, Result, ok, err, >>=-eq-ok, ok_inj, arith, inl, inr, Bool-cases, Option-cases,
}
use lab_commons.Hpc.Plan.Quota.{Snapshot}
use lab_commons.Hpc.Plan.Make.{Plan}
use lab_commons.Hpc.Plan.Grant.{Grant, Batch, Candidates, plan_for}
use lab_commons.Hpc.Plan.Span.{Placement}
use lab_commons.Hpc.Plan.Tiers.{
  Affinity, holds_wall, is_unplaceable, is_verify, is_empty, place, answering, hold_one, holding,
  place_over,
}
use lab_commons.Hpc.Plan.Landed.{span-from}

pub keep-All {ℓ} :
    {A : Type 0} (P : A → Type ℓ) (p : A → Bool) (xs : List A) → All P xs → All P (keep p xs)
keep-All P p [] all = tt
keep-All P p (x ∷ xs) (h, all) = elim (Bool-cases (p x)) [
  | inl e ↦ rw (e, All) (h, keep-All P p xs all)
  | inr e ↦ rw (e, All) (keep-All P p xs all)
]

pub keep-holds {ℓ} : {A : Type ℓ} (p : A → Bool) (xs : List A) → All (λ x. p x ≡ true) (keep p xs)
keep-holds p [] = tt
keep-holds p (x ∷ xs) = elim (Bool-cases (p x)) [
  | inl e ↦ rw (e, All) (e, keep-holds p xs)
  | inr e ↦ rw (e, All) (keep-holds p xs)
]

pub none-All {ℓ} :
    {A : Type ℓ} (p : A → Bool) (xs : List A) → any p xs ≡ false → All (λ x. p x ≡ false) xs
none-All p [] h = tt
none-All p (x ∷ xs) h = (ground (arith, h), none-All p xs (ground (arith, h)))

pub not-All {ℓ} :
    {A : Type ℓ} (p : A → Bool) (xs : List A)
    → All (λ x. not (p x) ≡ true) xs
    → All (λ x. p x ≡ false) xs
not-All p [] h = tt
not-All p (x ∷ xs) (h, all) = (ground (arith, h), not-All p xs all)

module _ (P : Grant → Type 0) where
  pub answering-from :
      (probe : Grant → Option Snapshot) (grants : List Grant)
      → All P grants
      → All (λ (c : Grant × Snapshot). P c.0) (answering probe grants)
  unfolding answering
  answering-from probe [] all = tt
  answering-from probe (g ∷ grants) (p, all) = elim (Option-cases (probe g)) [
    | inl e ↦ rw (e, All) (answering-from probe grants all)
    | inr (s, e) ↦ rw (e, All) (p, answering-from probe grants all)
  ]

  hold_one-from :
      (b : Batch) (c : Grant × Snapshot) (made : Result Plan) (rest : Candidates)
      {holders : Candidates}
      → P c.0
      → All (λ (c : Grant × Snapshot). P c.0) rest
      → hold_one b c made rest ≡ ok holders
      → All (λ (c : Grant × Snapshot). P c.0) holders
  unfolding hold_one
  hold_one-from b c (ok plan) rest p all h =
      subst (All (λ (d : Grant × Snapshot). P d.0)) (ok_inj h) (either (holds_wall b plan.top))
    where
      either : (t : Bool) → All (λ (d : Grant × Snapshot). P d.0) (if t then c ∷ rest else rest)
      either true = (p, all)
      either false = all
  hold_one-from b c (err why) rest p all h = elim (Bool-cases (is_unplaceable why)) [
    | inl e ↦ subst (All (λ (d : Grant × Snapshot). P d.0)) (ok_inj (rw e at h)) all
    | inr e ↦ absurd (ground (arith, rw e at h))
  ]

  pub holding-from :
      (b : Batch) (candidates : Candidates) {holders : Candidates}
      → All (λ (c : Grant × Snapshot). P c.0) candidates
      → holding b candidates ≡ ok holders
      → All (λ (c : Grant × Snapshot). P c.0) holders
  unfolding holding
  holding-from b [] all h = subst (All (λ (d : Grant × Snapshot). P d.0)) (ok_inj h) tt
  holding-from b ((g, s) ∷ candidates) (p, all) h =
      let (rest, e, end) = >>=-eq-ok (holding b candidates) _ h in
      hold_one-from b (g, s) (plan_for b g s) rest p (holding-from b candidates all e) end

  pub place_over-from :
      (b : Batch) (affinity : Option Affinity) (candidates : Candidates)
      {placements : List Placement}
      → All (λ (c : Grant × Snapshot). P c.0) candidates
      → place_over b affinity candidates ≡ ok placements
      → All (λ (p : Placement). P p.grant) placements
  unfolding place_over place
  place_over-from b none candidates all h = span-from P b candidates all h
  place_over-from b (some held) candidates all h =
      let own = keep (λ c. not (is_verify held c)) candidates in
      elim (Bool-cases (held.borrow || not (any (is_verify held) candidates))) [
        | inl e ↦ span-from P b candidates all (rw e at h)
        | inr e ↦
            let g = rw e at h in
            elim (Bool-cases (is_empty own)) [
              | inl empty ↦ absurd (ground (arith, empty, g))
              | inr full ↦
                  span-from P b own (keep-All (λ (c : Grant × Snapshot). P c.0) _ candidates all)
                    (rw full at g)
            ]
      ]
