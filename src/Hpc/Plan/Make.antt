-- ===== src/Hpc/Plan/Make.antt =====
-- src/lab_commons/hpc/plan.py: the candidates that are open, and `make_plan`. The sentences of its refusals are
-- not modelled; `Unplaceable` is `unplaceable`.
use lab_commons.Commons.{
  ℕ, zero, suc, ◌+◌, ◌-◌, ◌*◌, ◌/◌, String, Bool, true, false, not, ◌&&◌, ◌||◌, Option, none, some,
  List, [], ◌∷◌, map, min, max, str_eq, ltb, length, keep, if◌then◌else◌, Result, ok, err, Error,
  ◌>>=◌, ◌>>◌, guard,
}
use lab_commons.Commons.Dict.{Dict, elem, lookup, default, keys}
use lab_commons.Hpc.Shards.{Range}
use lab_commons.Hpc.Plan.Quota.{
  Partition, Quota, Snapshot, Cost, Limits, known, submit_room, quota_slots, slots_left, free_slots,
  lower,
}
use lab_commons.Hpc.Plan.Cut.{Policy, one_wave}

-- `Cluster`: the partitions to ask for, and the QOS that some of them need.
pub record Cluster : Type 0 where
  pub partitions : List String
  pub qos : Dict String

-- A candidate that is open to a submit now.
pub record Open : Type 0 where
  pub name : String
  pub qos : String
  pub room : Option ℕ
  pub ceiling : Option ℕ

-- A candidate that the work fits, and how it is cut there.
pub record Choice : Type 0 where
  pub at : Open
  pub shards : List Range
  pub minutes : ℕ

pub record Plan : Type 0 where
  pub partitions : List String
  pub qos : String
  pub cost : Cost
  pub minutes : ℕ
  pub shards : List Range
  pub throttle : ℕ
  pub free : ℕ
  pub makespan : ℕ
  pub room : Option ℕ
  pub top : Option ℕ
  pub comment : String
  pub setup : List String

-- `_ceiling(snapshot, partition, qos)`
unfoldable pub ceiling_of : Snapshot → Partition → String → Option ℕ
unfolding lower
ceiling_of snapshot part qos = lower part.ceiling (known (lookup qos snapshot.quota.qos_ceiling))

abbrev pub is_empty {ℓ} : {A : Type ℓ} → List A → Bool
is_empty [] = true
is_empty (x ∷ xs) = false

abbrev pub is_zero : Option ℕ → Bool
is_zero (some zero) = true
is_zero _ = false

-- Why a candidate is refused: it is down, or its QOS is not allowed or takes no submit.
abbrev pub is_closed : Partition → String → Option ℕ → Bool
is_closed part qos room =
    not part.is_up
    || ((not (is_empty part.allow_qos) && not (elem qos part.allow_qos)) || is_zero room)

unfoldable pub open_part : Snapshot → Cluster → String → Partition → Option Open
unfolding ceiling_of submit_room
open_part snapshot cluster name part =
    let qos = default snapshot.quota.default_qos (lookup name cluster.qos) in
    let room = submit_room snapshot.quota qos in
    if is_closed part qos room
    then none
    else some
        (record { name = name; qos = qos; room = room; ceiling = ceiling_of snapshot part qos })

-- One turn of the loop of `_open`: the candidate, if nothing speaks against it.
unfoldable pub open_one : Snapshot → Cluster → String → Option Open
unfolding open_part
open_one snapshot cluster name = elim (lookup name snapshot.partitions) [
  | none ↦ none
  | some part ↦ open_part snapshot cluster name part
]

unfoldable pub open_all : Snapshot → Cluster → List String → List Open
unfolding open_one
open_all snapshot cluster [] = []
open_all snapshot cluster (name ∷ names) =
    let rest = open_all snapshot cluster names in
    elim (open_one snapshot cluster name) [ none ↦ rest | some o ↦ o ∷ rest ]

-- `_open(snapshot, cluster)`, without the refusals
unfoldable pub open_in : Snapshot → Cluster → List Open
unfolding open_all
open_in snapshot cluster =
    open_all snapshot cluster
      (if is_empty cluster.partitions then keys snapshot.partitions else cluster.partitions)

-- `_top(ceilings)`
unfoldable pub top_of : List (Option ℕ) → Option ℕ
top_of [] = none
top_of (none ∷ ceilings) = none
top_of (some c ∷ []) = some c
top_of (some c ∷ d ∷ ceilings) = elim (top_of (d ∷ ceilings)) [
  | none ↦ none
  | some e ↦ some (max c e)
]

-- `_held(seconds, policy, ceilings)`
unfoldable pub held_to_top : List ℕ → Policy → List (Option ℕ) → List ℕ
unfolding top_of
held_to_top seconds policy ceilings = elim (top_of ceilings) [
  | none ↦ map policy.pad seconds
  | some top ↦ map (λ s. min (policy.pad s) top) seconds
]

abbrev pub or_allowed : Option ℕ → ℕ → ℕ
or_allowed (some (suc n)) allowed = suc n
or_allowed _ allowed = allowed

abbrev pub is_over : Policy → Option ℕ → ℕ → Bool
is_over policy none minutes = false
is_over policy (some top) minutes = ltb top (minutes * policy.minute)

-- The work cut for one candidate.
unfoldable pub cut_for : Quota → Policy → List ℕ → ℕ → Open → Choice
unfolding one_wave
cut_for quota policy padded allowed o =
    let at_once = min allowed (or_allowed (known (lookup o.qos quota.max_jobs)) allowed) in
    let (shards, minutes) = one_wave padded policy o.room at_once o.ceiling in
    record { at = o; shards = shards; minutes = minutes }

-- The loop over the open candidates.
unfoldable pub choices : Quota → Policy → List ℕ → ℕ → List Open → List Choice
unfolding cut_for
choices quota policy padded allowed [] = []
choices quota policy padded allowed (o ∷ opens) =
    let rest = choices quota policy padded allowed opens in
    let choice = cut_for quota policy padded allowed o in
    if is_over policy o.ceiling choice.minutes then rest else choice ∷ rest

-- `next((o for o in options if free_slots(snapshot, (o[0],), cost) > 0), options[0])`
unfoldable pub first_free : Snapshot → Cost → Choice → List Choice → Result Choice
first_free snapshot cost first [] = ok first
first_free snapshot cost first (c ∷ options) = do
  free ← free_slots snapshot (c.at.name ∷ []) cost
  (let rest = first_free snapshot cost first options in if ltb 0 free then ok c else rest)

abbrev pub holds : Policy → Choice → Choice → Bool
holds policy chosen o =
    str_eq o.at.qos chosen.at.qos && not (is_over policy o.at.ceiling chosen.minutes)

-- `partitions`: every option under the chosen one's QOS that holds its wall.
unfoldable pub merged_names : Policy → Choice → List Choice → List String
merged_names policy chosen options = map (λ o. o.at.name) (keep (holds policy chosen) options)

-- The end of `make_plan`, once an option is chosen.
unfoldable pub plan_of :
    Snapshot → Cost → Limits → Policy → List Open → List Choice → Choice → Result Plan
unfolding merged_names free_slots slots_left
plan_of snapshot cost limits policy opens options chosen = do
  let partitions = merged_names policy chosen options
  now ← slots_left snapshot cost limits
  let tasks = length chosen.shards
  let throttle =
      min tasks
        (min (max 1 now) (or_allowed (known (lookup chosen.at.qos snapshot.quota.max_jobs)) tasks))
  free ← free_slots snapshot partitions cost
  let running = max 1 (min throttle free)
  ok (record {
    partitions = partitions;
    qos = chosen.at.qos;
    cost = cost;
    minutes = chosen.minutes;
    shards = chosen.shards;
    throttle = throttle;
    free = free;
    makespan = (tasks + (running - 1)) / running * chosen.minutes;
    room = some now;
    top = top_of (map (λ (o : Open). o.ceiling) opens);
    comment = "";
    setup = [];
  })

abbrev pub padded_for : Policy → List Open → List ℕ → List ℕ
padded_for policy opens seconds = held_to_top seconds policy (map (λ (o : Open). o.ceiling) opens)

abbrev pub chosen_plan : Snapshot → Cost → Limits → Policy → List Open → List Choice → Result Plan
chosen_plan snapshot cost limits policy opens [] = err Error.unplaceable
chosen_plan snapshot cost limits policy opens (first ∷ options) = do
  chosen ← first_free snapshot cost first (first ∷ options)
  plan_of snapshot cost limits policy opens (first ∷ options) chosen

-- `make_plan`, with the seconds of each item.
unfoldable pub make_plan : List ℕ → Cost → Snapshot → Cluster → Policy → Limits → Result Plan
unfolding quota_slots open_in held_to_top choices first_free plan_of
make_plan seconds cost snapshot cluster policy limits = do
  guard (not (is_empty seconds)) Error.value_error
  allowed ← quota_slots snapshot cost limits
  guard (ltb 0 allowed) Error.unplaceable
  let opens = open_in snapshot cluster
  chosen_plan snapshot cost limits policy opens
      (choices snapshot.quota policy (padded_for policy opens seconds) allowed opens)
