-- ===== src/Hpc/Plan/Grant.antt =====
-- src/lab_commons/hpc/plan.py: `plan_on`, `allocate` and `spend`, with `Grant` of hpc/grants.py.
use lab_commons.Commons.{
  ℕ, zero, suc, ◌+◌, String, Bool, true, false, not, ◌&&◌, ◌||◌, Option, none, some, List, [], ◌∷◌,
  map, min, max, ltb, ◌==◌, if◌then◌else◌, Result, ok, err, Error, ◌>>=◌, ◌>>◌, guard,
}
use lab_commons.Commons.Int.{ℤ, pos, negsuc}
use lab_commons.Commons.Dict.{Dict, lookup, insert, default}
use lab_commons.Hpc.Region.{Paging, Task, free_memory, may_place}
use lab_commons.Hpc.Plan.Quota.{Snapshot, Cost, no_limits, headroom, region_view}
use lab_commons.Hpc.Plan.Cut.{Policy}
use lab_commons.Hpc.Plan.Make.{Cluster, Plan, make_plan}
use lab_commons.Hpc.Plan.Session.{Session, session_room}

pub record Grant : Type 0 where
  pub user : String
  pub hosts : List String
  pub slurm_account : String
  pub priority : ℤ
  pub partitions : List String
  pub qos : Dict String
  pub setup : List String
  pub costed : Bool

-- `grant.cluster()`
abbrev pub cluster_of : Grant → Cluster
cluster_of grant = record { partitions = grant.partitions; qos = grant.qos }

-- `FILES_PER_RUN`
abbrev pub files_per_run : ℕ
files_per_run = 4

abbrev too_few : Option ℕ → Bool
too_few none = false
too_few (some n) = ltb n files_per_run

-- `COMMENT_PREFIX + session.name if session else ''`; `append` is `+` of texts.
unfoldable pub comment_of : (String → String → String) → Option Session → String
comment_of append none = ""
comment_of append (some s) = append "lc:session=" s.name

-- `plan_on(grant, snapshot, n_items, cost, session=..., policy=..., seconds=...)`
unfoldable pub plan_on :
    (String → String → String)
    → Grant
    → Snapshot
    → List ℕ
    → Cost
    → Option Session
    → Policy
    → Result Plan
unfolding make_plan headroom comment_of
plan_on append grant snapshot seconds cost session policy = do
  guard (not (ltb (headroom snapshot) cost.cpus)) Error.unplaceable
  plan ←
      make_plan seconds cost snapshot (cluster_of grant) policy
        (record no_limits { cpus = some (headroom snapshot) })
  guard (not (too_few snapshot.inodes_free)) Error.unplaceable
  ok (record plan { comment = comment_of append session; setup = grant.setup })

-- A grant that can plan, its place in the file, and what `allocate` ranks it by; a fit of `none` is `math.inf`.
pub record Choosable : Type 0 where
  pub order : ℕ
  pub has_no_room : Bool
  pub makespan : ℕ
  pub fit : Option ℤ
  pub grant : Grant
  pub plan : Plan

abbrev int_lt : ℤ → ℤ → Bool
int_lt (pos a) (pos b) = ltb a b
int_lt (pos a) (negsuc b) = false
int_lt (negsuc a) (pos b) = true
int_lt (negsuc a) (negsuc b) = ltb b a

abbrev fit_lt : Option ℤ → Option ℤ → Bool
fit_lt none b = false
fit_lt (some a) none = true
fit_lt (some a) (some b) = int_lt a b

-- `o[:5] < p[:5]`, where `o` stands later in the file.
unfoldable pub is_better : Choosable → Choosable → Bool
is_better o p =
    if not o.has_no_room && p.has_no_room
    then true
    else if o.has_no_room && not p.has_no_room
    then false
    else if not (o.makespan == p.makespan)
    then ltb o.makespan p.makespan
    else if fit_lt o.fit p.fit || fit_lt p.fit o.fit
    then fit_lt o.fit p.fit
    else int_lt p.grant.priority o.grant.priority

-- `min(options, key=lambda o: o[:5])`, from the best so far on.
unfoldable pub best_of : Choosable → List Choosable → Choosable
unfolding is_better
best_of best [] = best
best_of best (o ∷ options) = best_of (if is_better o best then o else best) options

abbrev negated : ℕ → ℤ
negated zero = pos 0
negated (suc n) = negsuc n

abbrev is_zero : Option ℕ → Bool
is_zero (some zero) = true
is_zero _ = false

-- A plan held to the session's room.
unfoldable pub held_plan : Option ℕ → Plan → Plan
held_plan none plan = plan
held_plan (some cap) plan = record plan {
  room = elim plan.room [ none ↦ some cap | some r ↦ some (min r cap) ];
  throttle = min plan.throttle (max 1 cap);
}

-- `-headroom(snapshot) if paging is None else free_mem_mb(snapshot)`
unfoldable pub fit_of : Option Paging → Snapshot → Option ℤ
unfolding headroom free_memory
fit_of none snapshot = some (negated (headroom snapshot))
fit_of (some paging) snapshot = elim (free_memory (region_view snapshot)) [
  | none ↦ none
  | some n ↦ some (pos n)
]

abbrev task_of : Cost → Task
task_of cost = record { cpus = cost.cpus; memory = cost.memory }

-- Whether the pages of the pool let a plan run on an account.
unfoldable pub is_placed : Option Paging → ℕ → ℕ → Cost → List Snapshot → Bool → Bool
unfolding may_place
is_placed none index minutes cost snapshots rerun_safe = true
is_placed (some paging) index minutes cost snapshots rerun_safe =
    may_place index minutes (task_of cost) (map region_view snapshots) paging rerun_safe

abbrev pub Candidates : Type 0
Candidates = List (Grant × Snapshot)

abbrev pub snapshots_of : Candidates → List Snapshot
snapshots_of candidates = map (λ (c : Grant × Snapshot). c.1) candidates

abbrev is_unplaceable : Error → Bool
is_unplaceable Error.unplaceable = true
is_unplaceable _ = false

-- What a batch asks of a placement.
pub record Batch : Type 0 where
  pub seconds : List ℕ
  pub cost : Cost
  pub session : Option Session
  pub policy : Policy
  pub paging : Option Paging
  pub rerun_safe : Bool
  pub append : String → String → String

abbrev pub plan_for : Batch → Grant → Snapshot → Result Plan
plan_for b grant snapshot = plan_on b.append grant snapshot b.seconds b.cost b.session b.policy

-- The option that a grant is, once it can plan.
unfoldable pub option_of : Batch → Option ℕ → ℕ → Grant → Snapshot → Plan → Choosable
unfolding held_plan fit_of
option_of b cap order grant snapshot plan =
    let held = held_plan cap plan in
    record {
      order = order;
      has_no_room = is_zero held.room;
      makespan = held.makespan;
      fit = fit_of b.paging snapshot;
      grant = grant;
      plan = held;
    }

-- One turn of the loop of `allocate`, on the options of the later grants, and whether each grant that could not
-- plan had no room.
unfoldable pub add_option :
    Batch
    → Option ℕ
    → List Snapshot
    → ℕ
    → Grant
    → Snapshot
    → Result Plan
    → List Choosable × Bool
    → List Choosable × Bool
unfolding is_placed option_of
add_option b cap snapshots order grant snapshot (err why) (options, roomless) =
    (options, is_unplaceable why && roomless)
add_option b cap snapshots order grant snapshot (ok plan) (options, roomless) =
    if is_placed b.paging order plan.minutes b.cost snapshots b.rerun_safe
    then (option_of b cap order grant snapshot plan ∷ options, roomless)
    else (options, roomless)

unfoldable pub options_of :
    Batch → Option ℕ → List Snapshot → ℕ → Candidates → List Choosable × Bool
unfolding plan_on add_option
options_of b cap snapshots order [] = ([], true)
options_of b cap snapshots order ((grant, snapshot) ∷ candidates) =
    add_option b cap snapshots order grant snapshot (plan_for b grant snapshot)
      (options_of b cap snapshots (suc order) candidates)

abbrev is_empty {ℓ} : {A : Type ℓ} → List A → Bool
is_empty [] = true
is_empty (x ∷ xs) = false

unfoldable pub choose_of : Bool → List Choosable → Result Choosable
unfolding best_of
choose_of placeable [] = err (if placeable then Error.unplaceable else Error.value_error)
choose_of placeable (o ∷ options) = ok (best_of o options)

-- `allocate(n_items, cost, candidates, ...)`, with the option that it takes.
unfoldable pub allocate : Batch → Candidates → Result Choosable
unfolding session_room options_of choose_of
allocate b candidates = do
  cap ← session_room b.session (snapshots_of candidates) b.cost
  let (options, roomless) = options_of b cap (snapshots_of candidates) 0 candidates
  choose_of (not (is_empty candidates) && roomless) options

-- `spend(snapshots, grant, qos, tasks)`; `same` is `==` of grants.
unfoldable pub spend : (Grant → Grant → Bool) → Candidates → Grant → String → ℕ → Candidates
spend same [] grant qos tasks = []
spend same ((g, s) ∷ candidates) grant qos tasks =
    let held = insert qos (default 0 (lookup qos s.quota.queued) + tasks) s.quota.queued in
    let queued = record s { quota = record s.quota { queued = held } } in
    (g, if same g grant then queued else s) ∷ spend same candidates grant qos tasks
