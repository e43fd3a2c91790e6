-- ===== src/Hpc/Plan/Money.antt =====
-- `tiered` (src/lab_commons/hpc/jobs.py) and `place` (hpc/affinity.py): what a batch never lands on.
use lab_commons.Commons.{
  ◌∙◌, ◌≡◌, refl, ap, Bool, true, false, not, Option, some, List, [], ◌∷◌, any, keep, All,
  if◌then◌else◌, ok, err, Error, >>=-eq-ok, arith, ◌⊎◌, inl, inr, Bool-cases,
}
use lab_commons.Commons.Dict.{elem}
use lab_commons.Hpc.Plan.Quota.{Snapshot}
use lab_commons.Hpc.Plan.Grant.{Grant, Batch, Candidates}
use lab_commons.Hpc.Plan.Span.{Placement}
use lab_commons.Hpc.Plan.Tiers.{
  Affinity, mine_of, is_verify, is_empty, place, answering, holding, is_silent, place_over, pay,
  place_free, free_tier, among, by_holders, tiered,
}
use lab_commons.Hpc.Plan.Landed.{span-from}
use lab_commons.Hpc.Plan.Answered.{
  keep-All, keep-holds, none-All, not-All, answering-from, holding-from, place_over-from,
}

abbrev pub IsFree : Grant → Type 0
IsFree g = g.costed ≡ false

abbrev pub IsPaid : Grant → Type 0
IsPaid g = g.costed ≡ true

mine-from :
    (P : Grant → Type 0) (b : Batch) (affinity : Option Affinity) (mine : Candidates) (why : Error)
    {placements : List Placement}
    → All (λ (c : Grant × Snapshot). P c.0) mine
    → (if is_empty mine then err why else place_over b affinity mine) ≡ ok placements
    → All (λ (p : Placement). P p.grant) placements
mine-from P b affinity mine why all h = elim (Bool-cases (is_empty mine)) [
  | inl e ↦ absurd (ground (arith, rw e at h))
  | inr e ↦ place_over-from P b affinity mine all (rw e at h)
]

module _ (b : Batch) (affinity : Option Affinity) (same : Grant → Grant → Bool)
    (probe : Grant → Option Snapshot) (grants : List Grant) where
  -- What a batch is spread over when the free grants do not hold it.
  abbrev pub Paid : List Grant → List Placement → Type 0
  Paid tier placements =
      All (λ (p : Placement). IsPaid p.grant) placements
      × All (λ (g : Grant). is_silent probe g ≡ false) tier

  pay-tier :
      (tier : List Grant) {placements : List Placement}
      → All IsFree tier
      → pay b affinity same probe tier grants ≡ ok placements
      → All (λ (p : Placement). IsFree p.grant) placements ⊎ Paid tier placements
  unfolding pay
  pay-tier tier free h =
      let costed = keep (λ (g : Grant). g.costed) grants in
      elim (Bool-cases (is_empty costed)) [
        | inl e ↦ inl (
            mine-from IsFree b affinity (mine_of same grants (answering probe tier))
              Error.unplaceable
              (keep-All (λ (c : Grant × Snapshot). IsFree c.0)
                (λ (c : Grant × Snapshot). among same grants c.0) (answering probe tier)
                (answering-from IsFree probe tier free))
              (rw e at h))
        | inr e ↦ elim (Bool-cases (any (is_silent probe) tier)) [
          | inl silent ↦ absurd (ground (arith, rw (e, silent) at h))
          | inr told ↦ inr (
            mine-from IsPaid b affinity (answering probe costed) Error.unplaceable
                (answering-from IsPaid probe costed (keep-holds _ grants)) (rw (e, told) at h),
            none-All (is_silent probe) tier told,
          )
        ]
      ]

  by_holders-tier :
      (tier : List Grant) (holders : Candidates) {placements : List Placement}
      → All IsFree tier
      → All (λ (c : Grant × Snapshot). IsFree c.0) holders
      → by_holders b affinity same probe tier grants holders ≡ ok placements
      → All (λ (p : Placement). IsFree p.grant) placements
        ⊎ (Paid tier placements × (is_empty holders ≡ true))
  unfolding by_holders place_free
  by_holders-tier tier [] free all h = elim (pay-tier tier free h) [
    | inl k ↦ inl k
    | inr k ↦ inr (k, refl)
  ]
  by_holders-tier tier (c ∷ holders) free all h = inl (
      mine-from IsFree b affinity (mine_of same grants (c ∷ holders)) Error.value_error
        (keep-All (λ (c : Grant × Snapshot). IsFree c.0)
          (λ (c : Grant × Snapshot). among same grants c.0) (c ∷ holders) all)
        h)

-- When the machine has a free grant and a batch is placed, then either no placement is on a costed
-- grant, or all are, every free grant of the machine answered, and none of them could hold the batch.
pub tiered-tier :
    (b : Batch) (affinity : Option Affinity) (same : Grant → Grant → Bool)
    (probe : Grant → Option Snapshot) (machine grants : List Grant) {placements : List Placement}
    → is_empty (free_tier machine) ≡ false
    → tiered b affinity same probe machine grants ≡ ok placements
    → All (λ (p : Placement). IsFree p.grant) placements
      ⊎ (All (λ (p : Placement). IsPaid p.grant) placements
          × All (λ (g : Grant). is_silent probe g ≡ false) (free_tier machine)
          × (holding b (answering probe (free_tier machine)) ≡ ok []))
unfolding tiered
tiered-tier b affinity same probe machine grants some_free h =
    let tier = free_tier machine in
    let free : All IsFree tier = not-All _ tier (keep-holds _ machine) in
    let (holders, e, rest) = >>=-eq-ok (holding b (answering probe tier)) _ (rw some_free at h) in
    elim (by_holders-tier b affinity same probe grants tier holders free
      (holding-from IsFree b (answering probe tier) (answering-from IsFree probe tier free) e)
      rest) [
        | inl k ↦ inl k
        | inr ((paid, heard), none_holds) ↦
            inr (paid, heard, e ∙ ap ok (empty_nil holders none_holds))
      ]
  where
    empty_nil : (xs : Candidates) → is_empty xs ≡ true → xs ≡ []
    empty_nil [] e = refl
    empty_nil (x ∷ xs) e = absurd (ground (arith, e))

-- Off the verify account: what a grant's user is when the affinity does not name it.
abbrev pub IsOff : Affinity → Grant → Type 0
IsOff held g = elem g.user held.verify ≡ false

place_over-IsOff :
    (b : Batch) (held : Affinity) (candidates : Candidates) {placements : List Placement}
    → held.borrow ≡ false
    → place_over b (some held) candidates ≡ ok placements
    → All (λ (p : Placement). IsOff held p.grant) placements
unfolding place_over place
place_over-IsOff b held candidates lends h =
    let own = keep (λ c. not (is_verify held c)) candidates in
    elim (Bool-cases (any (is_verify held) candidates)) [
      | inl e ↦ elim (Bool-cases (is_empty own)) [
        | inl empty ↦ absurd (ground (arith, rw (lends, e, empty) at h))
        | inr full ↦
            span-from (IsOff held) b own (not-All (is_verify held) own (keep-holds _ candidates))
              (rw (lends, e, full) at h)
      ]
      | inr e ↦
          span-from (IsOff held) b candidates (none-All (is_verify held) candidates e)
            (rw (lends, e) at h)
    ]

some-IsOff :
    (b : Batch) (held : Affinity) (candidates : Candidates) (why : Error)
    {placements : List Placement}
    → held.borrow ≡ false
    → (if is_empty candidates then err why else place_over b (some held) candidates) ≡ ok placements
    → All (λ (p : Placement). IsOff held p.grant) placements
some-IsOff b held candidates why lends h = elim (Bool-cases (is_empty candidates)) [
  | inl e ↦ absurd (ground (arith, rw e at h))
  | inr e ↦ place_over-IsOff b held candidates lends (rw e at h)
]

by_holders-IsOff :
    (b : Batch) (held : Affinity) (same : Grant → Grant → Bool) (probe : Grant → Option Snapshot)
    (tier grants : List Grant) (holders : Candidates) {placements : List Placement}
    → held.borrow ≡ false
    → by_holders b (some held) same probe tier grants holders ≡ ok placements
    → All (λ (p : Placement). IsOff held p.grant) placements
unfolding by_holders pay place_free
by_holders-IsOff b held same probe tier grants (c ∷ holders) lends h =
    some-IsOff b held (mine_of same grants (c ∷ holders)) Error.value_error lends h
by_holders-IsOff b held same probe tier grants [] lends h =
    elim (Bool-cases (is_empty (keep (λ (g : Grant). g.costed) grants))) [
      | inl e ↦
          some-IsOff b held (mine_of same grants (answering probe tier)) Error.unplaceable lends
            (rw e at h)
      | inr e ↦ elim (Bool-cases (any (is_silent probe) tier)) [
        | inl silent ↦ absurd (ground (arith, rw (e, silent) at h))
        | inr told ↦
            some-IsOff b held (answering probe (keep (λ (g : Grant). g.costed) grants))
              Error.unplaceable lends (rw (e, told) at h)
      ]
    ]

-- When an affinity does not lend its verify accounts, no batch that is placed under it has a
-- placement of a user that the affinity names.
pub tiered-IsOff :
    (b : Batch) (held : Affinity) (same : Grant → Grant → Bool) (probe : Grant → Option Snapshot)
    (machine grants : List Grant) {placements : List Placement}
    → held.borrow ≡ false
    → tiered b (some held) same probe machine grants ≡ ok placements
    → All (λ (p : Placement). IsOff held p.grant) placements
unfolding tiered
tiered-IsOff b held same probe machine grants lends h =
    let tier = free_tier machine in
    elim (Bool-cases (is_empty tier)) [
      | inl e ↦ place_over-IsOff b held _ lends (rw e at h)
      | inr e ↦
          let (holders, f, rest) = >>=-eq-ok (holding b (answering probe tier)) _ (rw e at h) in
          by_holders-IsOff b held same probe tier grants holders lends rest
    ]
