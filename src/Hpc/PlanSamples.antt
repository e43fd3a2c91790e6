-- ===== src/Hpc/PlanSamples.antt =====
-- Two accounts, one of them paid, and the theorems of plans, spans and tiers at them.
use lab_commons.Commons.{
  ℕ, ◌+◌, ◌/◌, arith, ◌≡◌, refl, Bool, true, false, Option, none, some, List, [], ◌∷◌, All, ◌⊎◌, ok,
}
use lab_commons.Commons.Dict.{elem}
use lab_commons.Commons.Int.{pos}
use lab_commons.Hpc.Plan.Quota.{Quota, Snapshot, Cost, no_limits}
use lab_commons.Hpc.Plan.Cut.{Grows, Policy}
use lab_commons.Hpc.Plan.Make.{Cluster, Plan, make_plan}
use lab_commons.Hpc.Plan.Relies.{IsSound, make_plan-IsSound}
use lab_commons.Hpc.Plan.Session.{session_room}
use lab_commons.Hpc.Plan.Grant.{Grant, Batch, Candidates, snapshots_of, plan_on, allocate}
use lab_commons.Hpc.Plan.Span.{Placement, span}
use lab_commons.Hpc.Plan.Spread.{IsSpan, span-IsSpan}
use lab_commons.Hpc.Plan.Tiers.{Affinity, answering, holding, is_silent, free_tier, tiered}
use lab_commons.Hpc.Plan.Money.{IsFree, IsPaid, IsOff, tiered-tier, tiered-IsOff}

abbrev policy : Policy
policy = record {
  low = 600;
  high = 1200;
  max_array = 10;
  minute = 60;
  pad = λ n. n + 60;
  grow = λ n. n + n;
  share = λ a n. a / n;
}

grows : Grows policy
grows = (omega arith, omega arith, λ n h. omega arith)

abbrev files : List ℕ
files = 500 ∷ 900 ∷ 200 ∷ 300 ∷ []

abbrev quota : Quota
quota = record {
  cpus = some 16;
  memory = some 64;
  gpus = some 0;
  default_qos = "normal";
  qos_ceiling = [];
  used_cpus = 4;
  used_memory = 8;
  used_gpus = 0;
  max_submit = ("normal", some 5) ∷ [];
  max_jobs = [];
  queued = ("normal", 1) ∷ [];
}

abbrev snapshot : Snapshot
snapshot = record {
  nodes =
      record { partitions = "short" ∷ []; cpus = 8; memory = 32; gpus = 0; schedulable = true }
      ∷ [];
  partitions = ("short", record { ceiling = some 7200; is_up = true; allow_qos = [] }) ∷ [];
  quota = quota;
  usage = ("", record { tasks = 1; cpus = 4; memory = 8 }) ∷ [];
  inodes_free = some 100;
  pending = [];
}

abbrev cost : Cost
cost = record { cpus = 2; memory = 4; gpus = 0; seconds = 900 }

abbrev cluster : Cluster
cluster = record { partitions = "short" ∷ []; qos = [] }

planned : (plan : Plan) × (make_plan files cost snapshot cluster policy no_limits ≡ ok plan)
unfolding make_plan
planned = (_, refl)

make_plan-IsSound_example : IsSound snapshot cluster policy 4 planned.0
make_plan-IsSound_example =
    make_plan-IsSound snapshot cluster policy files cost no_limits grows (omega arith) planned.1

abbrev free_grant : Grant
free_grant = record {
  user = "ada";
  hosts = "login1" ∷ [];
  slurm_account = "lab";
  priority = pos 0;
  partitions = "short" ∷ [];
  qos = [];
  setup = [];
  costed = false;
}

abbrev paid_grant : Grant
paid_grant = record free_grant { user = "bob"; costed = true }

abbrev batch : Batch
batch = record {
  seconds = files;
  cost = cost;
  session = none;
  policy = policy;
  paging = none;
  rerun_safe = false;
  append = λ a b. b;
}

abbrev candidates : Candidates
candidates = (free_grant, snapshot) ∷ (paid_grant, snapshot) ∷ []

spanned : (placements : List Placement) × (span batch candidates ≡ ok placements)
unfolding span allocate
spanned = (_, refl)

span-IsSpan_example :
    (cap : Option ℕ) × (session_room none (snapshots_of candidates) cost ≡ ok cap)
    × IsSpan batch grows (omega arith) candidates cap spanned.0
span-IsSpan_example = span-IsSpan batch grows (omega arith) candidates spanned.1

abbrev same : Grant → Grant → Bool
same g h = elem g.user (h.user ∷ [])

abbrev probe : Grant → Option Snapshot
probe g = some snapshot

abbrev held : Affinity
held = record { verify = "ada" ∷ []; borrow = false }

abbrev machine : List Grant
machine = free_grant ∷ paid_grant ∷ []

tiered_free :
    (placements : List Placement) × (tiered batch none same probe machine machine ≡ ok placements)
unfolding tiered plan_on span allocate
tiered_free = (_, refl)

tiered-tier_example :
    All (λ (p : Placement). IsFree p.grant) tiered_free.0
    ⊎ (All (λ (p : Placement). IsPaid p.grant) tiered_free.0
        × All (λ (g : Grant). is_silent probe g ≡ false) (free_tier machine)
        × (holding batch (answering probe (free_tier machine)) ≡ ok []))
tiered-tier_example = tiered-tier batch none same probe machine machine refl tiered_free.1

-- The verify account is left to others: the batch goes to the second of two free grants.
abbrev both_free : List Grant
both_free = free_grant ∷ record paid_grant { costed = false } ∷ []

tiered_off :
    (placements : List Placement) × (tiered batch (some held) same probe both_free both_free
      ≡ ok placements)
unfolding tiered plan_on span allocate
tiered_off = (_, refl)

tiered-IsOff_example : All (λ (p : Placement). IsOff held p.grant) tiered_off.0
tiered-IsOff_example = tiered-IsOff batch held same probe both_free both_free refl tiered_off.1
