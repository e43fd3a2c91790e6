-- ===== src/Hpc/Plan/Tiers.antt =====
-- src/lab_commons/hpc/affinity.py, `place`, and src/lab_commons/hpc/jobs.py, `_answering`, `_holding` and `tiered`.
-- What a grant's login hosts answer (`probe`) and `==` of grants (`same`) are arguments.
use lab_commons.Commons.{
  ℕ, String, Bool, true, false, not, ◌||◌, Option, none, some, List, [], ◌∷◌, ltb, any, keep,
  if◌then◌else◌, Result, ok, err, Error, ◌>>=◌,
}
use lab_commons.Commons.Dict.{elem}
use lab_commons.Hpc.Plan.Quota.{Snapshot}
use lab_commons.Hpc.Plan.Make.{Plan}
use lab_commons.Hpc.Plan.Grant.{Grant, Batch, Candidates, plan_for}
use lab_commons.Hpc.Plan.Span.{Placement, span}

-- `Affinity`
pub record Affinity : Type 0 where
  pub verify : List String
  pub borrow : Bool

abbrev pub is_verify : Affinity → Grant × Snapshot → Bool
is_verify held c = elem c.0.user held.verify

abbrev pub is_empty {ℓ} : {A : Type ℓ} → List A → Bool
is_empty [] = true
is_empty (x ∷ xs) = false

abbrev pub Spread : Type 0
Spread = Candidates → Result (List Placement)

-- `place(candidates, held, spread)`
unfoldable pub place : Candidates → Option Affinity → Spread → Result (List Placement)
place candidates none spread = spread candidates
place candidates (some held) spread =
    let own = keep (λ c. not (is_verify held c)) candidates in
    if held.borrow || not (any (is_verify held) candidates)
    then spread candidates
    else if is_empty own
    then err Error.unplaceable
    else spread own

-- `_answering(grants, reach)`
unfoldable pub answering : (Grant → Option Snapshot) → List Grant → Candidates
answering probe [] = []
answering probe (g ∷ grants) =
    let rest = answering probe grants in elim (probe g) [ none ↦ rest | some s ↦ (g, s) ∷ rest ]

abbrev pub holds_wall : Batch → Option ℕ → Bool
holds_wall b none = true
holds_wall b (some top) = not (ltb top (b.policy.pad b.cost.seconds))

abbrev pub is_unplaceable : Error → Bool
is_unplaceable Error.unplaceable = true
is_unplaceable _ = false

-- One turn of the loop of `_holding`: a plan without room is no holder, any other refusal is raised.
unfoldable pub hold_one : Batch → Grant × Snapshot → Result Plan → Candidates → Result Candidates
hold_one b c (ok plan) holders = ok (if holds_wall b plan.top then c ∷ holders else holders)
hold_one b c (err why) holders = if is_unplaceable why then ok holders else err why

-- `_holding(config, n_items, answering, machine)`, the holders
unfoldable pub holding : Batch → Candidates → Result Candidates
unfolding hold_one
holding b [] = ok []
holding b ((g, s) ∷ candidates) = do
  holders ← holding b candidates
  hold_one b (g, s) (plan_for b g s) holders

abbrev pub among : (Grant → Grant → Bool) → List Grant → Grant → Bool
among same grants g = any (λ h. same h g) grants

abbrev pub mine_of : (Grant → Grant → Bool) → List Grant → Candidates → Candidates
mine_of same grants candidates = keep (λ (c : Grant × Snapshot). among same grants c.0) candidates

abbrev pub is_silent : (Grant → Option Snapshot) → Grant → Bool
is_silent probe g = elim (probe g) [ none ↦ true | some _ ↦ false ]

-- `over(candidates)` within `tiered`
unfoldable pub place_over : Batch → Option Affinity → Candidates → Result (List Placement)
unfolding place
place_over b affinity candidates = place candidates affinity (span b)

-- The end of `tiered`, when no free grant holds the work.
unfoldable pub pay :
    Batch
    → Option Affinity
    → (Grant → Grant → Bool)
    → (Grant → Option Snapshot)
    → List Grant
    → List Grant
    → Result (List Placement)
unfolding answering place_over
pay b affinity same probe tier grants =
    let costed = keep (λ (g : Grant). g.costed) grants in
    let mine = mine_of same grants (answering probe tier) in
    let paid = answering probe costed in
    if is_empty costed
    then (if is_empty mine then err Error.unplaceable else place_over b affinity mine)
    else if any (is_silent probe) tier
    then err Error.unplaceable
    else if is_empty paid
    then err Error.unplaceable
    else place_over b affinity paid

-- `mine` of the holders, or the refusal that none of them is a candidate.
unfoldable pub place_free :
    Batch
    → Option Affinity
    → (Grant → Grant → Bool)
    → List Grant
    → Candidates
    → Result (List Placement)
unfolding place_over
place_free b affinity same grants holders =
    let mine = mine_of same grants holders in
    if is_empty mine then err Error.value_error else place_over b affinity mine

abbrev pub free_tier : List Grant → List Grant
free_tier machine = keep (λ (g : Grant). not g.costed) machine

-- `tiered` once the holders are known.
unfoldable pub by_holders :
    Batch
    → Option Affinity
    → (Grant → Grant → Bool)
    → (Grant → Option Snapshot)
    → List Grant
    → List Grant
    → Candidates
    → Result (List Placement)
unfolding pay place_free
by_holders b affinity same probe tier grants [] = pay b affinity same probe tier grants
by_holders b affinity same probe tier grants (c ∷ holders) =
    place_free b affinity same grants (c ∷ holders)

-- `tiered(config, n_items, grants, machine=..., reach=...)`
unfoldable pub tiered :
    Batch
    → Option Affinity
    → (Grant → Grant → Bool)
    → (Grant → Option Snapshot)
    → List Grant
    → List Grant
    → Result (List Placement)
unfolding answering holding by_holders place_over
tiered b affinity same probe machine grants =
    let tier = free_tier machine in
    if is_empty tier
    then place_over b affinity (answering probe (keep (λ (g : Grant). g.costed) grants))
    else (holding b (answering probe tier) >>= λ holders.
        by_holders b affinity same probe tier grants holders)
