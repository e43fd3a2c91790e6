-- ===== src/Hpc/Plan/Span.antt =====
-- src/lab_commons/hpc/span.py. Times are in one unit; `share a n` of the policy is a quotient of floats in it.
use lab_commons.Commons.{
  ℕ, suc, ◌+◌, ◌-◌, ◌*◌, Bool, false, Option, none, some, List, [], ◌∷◌, map, max, ltb, leb, ◌==◌,
  length, take, if◌then◌else◌, Result, ok, err, ◌>>=◌,
}
use lab_commons.Hpc.Shards.{Range, drop, sum}
use lab_commons.Hpc.Plan.Quota.{Snapshot}
use lab_commons.Hpc.Plan.Make.{Plan}
use lab_commons.Hpc.Plan.Session.{session_room}
use lab_commons.Hpc.Plan.Grant.{
  Grant, Batch, Candidates, snapshots_of, plan_for, is_placed, allocate,
}

-- A grant's slice of a batch, its end not included.
pub record Placement : Type 0 where
  pub grant : Grant
  pub plan : Plan
  pub items : Range

abbrev distance : ℕ → ℕ → ℕ
distance a b = (a - b) + (b - a)

-- `min(range(start, ...), key=lambda i: abs(running[i] - target))` over the items from `i` on, with the best
-- so far and its distance; `at` is the running sum at `i`.
unfoldable pub nearest : ℕ → ℕ → ℕ → ℕ → ℕ → List ℕ → ℕ
nearest target best off i at [] = best
nearest target best off i at (s ∷ seconds) =
    let closer = ltb (distance (at + s) target) off in
    nearest target (if closer then suc i else best)
      (if closer then distance (at + s) target else off) (suc i) (at + s) seconds

abbrev upto : ℕ → List ℕ → ℕ
upto n seconds = sum (take n seconds)

-- The loop of `split` over the weights but the last, with their running sum.
unfoldable pub cuts : (ℕ → ℕ → ℕ) → List ℕ → ℕ → ℕ → ℕ → List ℕ → List Range
unfolding nearest
cuts share seconds whole acc start [] = (start, length seconds) ∷ []
cuts share seconds whole acc start (w ∷ []) = (start, length seconds) ∷ []
cuts share seconds whole acc start (w ∷ v ∷ weights) =
    let target = share (sum seconds * (acc + w)) whole in
    let at = upto start seconds in
    let stop = nearest target start (distance at target) start at (drop start seconds) in
    (start, stop) ∷ cuts share seconds whole (acc + w) stop (v ∷ weights)

-- `split(seconds, weights)`
unfoldable pub split : (ℕ → ℕ → ℕ) → List ℕ → List ℕ → List Range
unfolding cuts
split share seconds weights = cuts share seconds (sum weights) 0 0 weights

-- A grant that can take the whole batch, and its throughput.
pub record Able : Type 0 where
  pub grant : Grant
  pub snapshot : Snapshot
  pub rate : ℕ

-- One turn of the loop over the candidates, on what the later ones give.
unfoldable pub add_able :
    Batch → List Snapshot → ℕ → Grant → Snapshot → Result Plan → List Able → List Able
unfolding is_placed
add_able b snapshots index grant snapshot (err _) rest = rest
add_able b snapshots index grant snapshot (ok whole) rest =
    if is_placed b.paging index whole.minutes b.cost snapshots b.rerun_safe
    then record {
      grant = grant;
      snapshot = snapshot;
      rate = b.policy.share (sum b.seconds) whole.makespan;
    }
      ∷ rest
    else rest

unfoldable pub able_of : Batch → List Snapshot → ℕ → Candidates → List Able
unfolding add_able
able_of b snapshots index [] = []
able_of b snapshots index ((grant, snapshot) ∷ candidates) =
    add_able b snapshots index grant snapshot (plan_for b grant snapshot)
      (able_of b snapshots (suc index) candidates)

-- `each[start:stop]`
abbrev pub slice : List ℕ → Range → List ℕ
slice seconds (a, b) = take (b - a) (drop a seconds)

-- A slice's placement before those of the later slices: `none` where the code returns the one grant.
unfoldable pub add_slice :
    Able → Range → Result Plan → Option (List Placement) → Option (List Placement)
add_slice a r (err _) rest = none
add_slice a r (ok part) none = none
add_slice a r (ok part) (some placements) =
    some (record { grant = a.grant; plan = part; items = r } ∷ placements)

-- The loop over the slices.
unfoldable pub slices_of : Batch → List Able → List Range → Option (List Placement)
unfolding add_slice
slices_of b (a ∷ able) ((start, stop) ∷ ranges) =
    let rest = slices_of b able ranges in
    if start == stop
    then rest
    else if ltb (b.policy.pad (sum (slice b.seconds (start, stop)))) b.policy.low
    then none
    else add_slice a (start, stop)
        (plan_for (record b { seconds = slice b.seconds (start, stop) }) a.grant a.snapshot) rest
slices_of b _ _ = some []

abbrev pub throttles : List Placement → ℕ
throttles [] = 0
throttles (p ∷ placements) = p.plan.throttle + throttles placements

abbrev pub slowest_of : List Placement → ℕ
slowest_of [] = 0
slowest_of (p ∷ placements) = max p.plan.makespan (slowest_of placements)

abbrev pub is_over_cap : Option ℕ → ℕ → Bool
is_over_cap none n = false
is_over_cap (some cap) n = ltb cap n

-- The end of `span`, over the slices' placements.
unfoldable pub spread_or :
    Option ℕ → Plan → List Placement → Option (List Placement) → List Placement
spread_or cap plan alone none = alone
spread_or cap plan alone (some placements) =
    if is_over_cap cap (throttles placements)
    then alone
    else if ltb (slowest_of placements) plan.makespan
    then placements
    else alone

-- `span(n_items, cost, candidates, ...)`
unfoldable pub span : Batch → Candidates → Result (List Placement)
unfolding able_of split slices_of spread_or
span b candidates = do
  best ← allocate b candidates
  let alone = record { grant = best.grant; plan = best.plan; items = (0, length b.seconds) } ∷ []
  let able = able_of b (snapshots_of candidates) 0 candidates
  cap ← session_room b.session (snapshots_of candidates) b.cost
  ok (
      if leb (length able) 1
      then alone
      else spread_or cap best.plan alone
          (slices_of b able (split b.policy.share b.seconds (map (λ (a : Able). a.rate) able))))
