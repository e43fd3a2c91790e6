-- ===== src/Hpc/Plan/Quota.antt =====
-- src/lab_commons/hpc/slurm.py (`Held`, `Node`, `Partition`, `Quota`, `Snapshot`), the cost and the limits of
-- hpc/config.py, and of hpc/plan.py what an account has free. Memory is in bytes everywhere; a wall is in the
-- unit of the items' seconds.
use lab_commons.Commons.{
  ℕ, zero, suc, ◌+◌, ◌-◌, ◌/◌, String, Bool, true, false, ◌&&◌, Option, none, some, List, [], ◌∷◌,
  map, min, max, any, sum_of, if◌then◌else◌, Result, ok, err, Error, ◌>>=◌,
}
use lab_commons.Commons.Int.{ℤ, pos}
use lab_commons.Commons.Dict.{Dict, elem, lookup, default}
use lab_commons.Dimensions.Width.{fits}
use lab_commons.Hpc.Region.{Task}
use lab_commons.Hpc.Region

pub record Node : Type 0 where
  pub partitions : List String
  pub cpus : ℕ
  pub memory : ℕ
  pub gpus : ℕ
  pub schedulable : Bool

pub record Partition : Type 0 where
  pub ceiling : Option ℕ
  pub is_up : Bool
  pub allow_qos : List String

pub record Held : Type 0 where
  pub tasks : ℕ
  pub cpus : ℕ
  pub memory : ℕ

abbrev pub nothing_held : Held
nothing_held = record { tasks = 0; cpus = 0; memory = 0 }

-- `a + b`
abbrev pub add_held : Held → Held → Held
add_held a b = record {
  tasks = a.tasks + b.tasks;
  cpus = a.cpus + b.cpus;
  memory = a.memory + b.memory;
}

pub record Quota : Type 0 where
  pub cpus : Option ℕ
  pub memory : Option ℕ
  pub gpus : Option ℕ
  pub default_qos : String
  pub qos_ceiling : Dict (Option ℕ)
  pub used_cpus : ℕ
  pub used_memory : ℕ
  pub used_gpus : ℕ
  pub max_submit : Dict (Option ℕ)
  pub max_jobs : Dict (Option ℕ)
  pub queued : Dict ℕ

pub record Snapshot : Type 0 where
  pub nodes : List Node
  pub partitions : Dict Partition
  pub quota : Quota
  pub usage : Dict Held
  pub inodes_free : Option ℕ
  pub pending : List Held

pub record Cost : Type 0 where
  pub cpus : ℕ
  pub memory : ℕ
  pub gpus : ℕ
  pub seconds : ℕ

pub record Limits : Type 0 where
  pub cpus : Option ℕ
  pub memory : Option ℕ
  pub gpus : Option ℕ

abbrev pub no_limits : Limits
no_limits = record { cpus = none; memory = none; gpus = none }

-- `cost.demands()`
abbrev pub demands : Cost → Dict ℤ
demands cost = ("cpu", pos cost.cpus) ∷ ("memory", pos cost.memory) ∷ ("gpu", pos cost.gpus) ∷ []

-- `d.get(key)` where a value may itself be `None`.
abbrev pub known {ℓ} : {A : Type ℓ} → Option (Option A) → Option A
known none = none
known (some v) = v

-- `quota.submit_room(qos)`
unfoldable pub submit_room : Quota → String → Option ℕ
submit_room quota qos = elim (known (lookup qos quota.max_submit)) [
  | none ↦ none
  | some cap ↦ some (cap - default 0 (lookup qos quota.queued))
]

abbrev less : Option ℕ → ℕ → Option ℕ
less none used = none
less (some ceiling) used = some (ceiling - used)

-- `quota.remaining()`, as a quota whose ceilings are what is left.
unfoldable pub remaining : Quota → Limits
remaining quota = record {
  cpus = less quota.cpus quota.used_cpus;
  memory = less quota.memory quota.used_memory;
  gpus = less quota.gpus quota.used_gpus;
}

-- `_lower(cluster, local)`
unfoldable pub lower : Option ℕ → Option ℕ → Option ℕ
lower none b = b
lower (some a) none = some a
lower (some a) (some b) = some (min a b)

abbrev amount : Option ℕ → Option ℤ
amount none = none
amount (some n) = some (pos n)

abbrev capacity : Option ℕ → Option ℕ → Option ℕ → Dict (Option ℤ)
capacity cpus memory gpus =
    ("cpu", amount cpus) ∷ ("memory", amount memory) ∷ ("gpu", amount gpus) ∷ []

abbrev is_none {ℓ} : {A : Type ℓ} → Option A → Bool
is_none none = true
is_none (some a) = false

-- How many tasks of the cost fit in the lower of two sets of ceilings, of which one at least is there.
unfoldable pub slots_in : Limits → Limits → Cost → Result ℕ
unfolding lower fits
slots_in ceilings limits cost =
    let cpus = lower ceilings.cpus limits.cpus in
    let memory = lower ceilings.memory limits.memory in
    let gpus = lower ceilings.gpus limits.gpus in
    if is_none cpus && is_none memory && is_none gpus
    then err Error.value_error
    else fits (capacity cpus memory gpus) (demands cost)

abbrev ceilings_of : Quota → Limits
ceilings_of quota = record { cpus = quota.cpus; memory = quota.memory; gpus = quota.gpus }

-- `quota_slots(snapshot, cost, limits)` and, of what is left, with `remaining=True`.
unfoldable pub quota_slots : Snapshot → Cost → Limits → Result ℕ
unfolding slots_in
quota_slots snapshot cost limits = slots_in (ceilings_of snapshot.quota) limits cost

unfoldable pub slots_left : Snapshot → Cost → Limits → Result ℕ
unfolding slots_in remaining
slots_left snapshot cost limits = slots_in (remaining snapshot.quota) limits cost

-- `n.schedulable and not set(partitions).isdisjoint(n.partitions)`
abbrev can_start : List String → Node → Bool
can_start partitions n = n.schedulable && any (λ p. elem p partitions) n.partitions

-- `free_slots(snapshot, partitions, cost)`, over nodes.
unfoldable pub slots_of : List Node → List String → Cost → Result ℕ
unfolding fits
slots_of [] partitions cost = ok 0
slots_of (n ∷ nodes) partitions cost = do
  here ←
      if can_start partitions n
      then fits (capacity (some n.cpus) (some n.memory) (some n.gpus)) (demands cost)
      else ok 0
  rest ← slots_of nodes partitions cost
  ok (here + rest)

unfoldable pub free_slots : Snapshot → List String → Cost → Result ℕ
unfolding slots_of
free_slots snapshot partitions cost = slots_of snapshot.nodes partitions cost

-- `headroom(snapshot)`
unfoldable pub headroom : Snapshot → ℕ
headroom snapshot = elim snapshot.quota.cpus [
  | none ↦ sum_of (λ (n : Node). if n.schedulable then n.cpus else 0) snapshot.nodes
  | some quota ↦ quota - sum_of (λ (i : String × Held). i.1.cpus) snapshot.usage
]

abbrev or_else : Option ℕ → ℕ → ℕ
or_else none n = n
or_else (some zero) n = n
or_else (some (suc m)) n = suc m

-- `live_throttle(snapshot, cost, running=running, unfinished=unfinished, max_jobs=max_jobs)`
unfoldable pub live_throttle : Snapshot → Cost → ℕ → ℕ → Option ℕ → ℕ
unfolding slots_left headroom
live_throttle snapshot cost running unfinished max_jobs =
    let free : ℕ = elim (slots_left snapshot cost no_limits) [
      | ok n ↦ n
      | err _ ↦ headroom snapshot / max 1 cost.cpus
    ] in
    max 1 (min unfinished (min (running + free) (or_else max_jobs unfinished)))

-- What the region reads of a snapshot.
abbrev pub region_view : Snapshot → Region.Snapshot
region_view snapshot = record {
  ceiling = snapshot.quota.memory;
  used = snapshot.quota.used_memory;
  pending = map (λ (h : Held). record { cpus = h.cpus; memory = h.memory }) snapshot.pending;
}
