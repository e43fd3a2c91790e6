-- ===== src/Hpc/Region.antt =====
-- src/lab_commons/hpc/region.py, with `Paging.pages` and `Paging.size` of src/lab_commons/hpc/grants.py and
-- the memory of `Quota.remaining` of src/lab_commons/hpc/slurm.py. Memory is in bytes, an amount in
-- gigabytes too (Compute/Resources.antt); the bounds of a paging are positive, as its constructor checks.
use lab_commons.Commons.{
  ℕ, zero, suc, ◌+◌, ◌-◌, ◌/◌, Bool, true, false, not, ◌&&◌, Option, none, some, List, [], ◌∷◌, any,
  ltb, leb, ◌==◌, max, if◌then◌else◌,
}

pub record Paging : Type 0 where
  pub page_cpus : ℕ
  pub page_mem : ℕ
  pub large_pages : ℕ
  pub movable_minutes : ℕ

-- What a task asks for.
pub record Task : Type 0 where
  pub cpus : ℕ
  pub memory : ℕ

-- Of an account: its memory's ceiling, if it has one, what is held of it, and the tasks that wait.
pub record Snapshot : Type 0 where
  pub ceiling : Option ℕ
  pub used : ℕ
  pub pending : List Task

pub data Size : Type 0 where
  small medium large : Size

-- `math.ceil(n / page)`
abbrev pub ceil_div : ℕ → ℕ → ℕ
ceil_div n page = (n + (page - 1)) / page

-- `paging.pages(cpus, mem_gb)`
unfoldable pub pages : Paging → Task → ℕ
pages paging task =
    max 1 (max (ceil_div task.cpus paging.page_cpus) (ceil_div task.memory paging.page_mem))

-- `paging.size(cost)`
unfoldable pub size_of : Paging → Task → Size
unfolding pages
size_of paging task =
    if pages paging task == 1
    then Size.small
    else if ltb paging.large_pages (pages paging task)
    then Size.large
    else Size.medium

-- `free_mem_mb(snapshot)`: `none` is `math.inf`.
unfoldable pub free_memory : Snapshot → Option ℕ
free_memory snapshot = elim snapshot.ceiling [ none ↦ none | some n ↦ some (n - snapshot.used) ]

-- `_waits_large(snapshot, paging)`
unfoldable pub waits_large : Paging → Snapshot → Bool
unfolding pages
waits_large paging snapshot =
    any (λ (t : Task). ltb paging.large_pages (pages paging t)) snapshot.pending

-- `a > b` of two amounts of free memory.
abbrev pub is_more : Option ℕ → Option ℕ → Bool
is_more a none = false
is_more none (some b) = true
is_more (some a) (some b) = ltb b a

-- `waiting[0]`, if it is there.
unfoldable pub first_waiting : Paging → ℕ → List Snapshot → Option ℕ
unfolding waits_large
first_waiting paging i [] = none
first_waiting paging i (s ∷ snapshots) =
    let later = first_waiting paging (suc i) snapshots in
    if waits_large paging s then some i else later

-- `max(range(...), key=lambda i: (free_mem_mb(snapshots[i]), -i))`, from the best so far on.
unfoldable pub emptiest : ℕ → Option ℕ → ℕ → List Snapshot → ℕ
unfolding free_memory
emptiest best free i [] = best
emptiest best free i (s ∷ snapshots) =
    let changed = emptiest i (free_memory s) (suc i) snapshots in
    let same = emptiest best free (suc i) snapshots in
    if is_more (free_memory s) free then changed else same

-- `region(snapshots, paging)`
unfoldable pub region : List Snapshot → Paging → Option ℕ
unfolding first_waiting emptiest
region [] paging = none
region (s ∷ []) paging = none
region (s ∷ t ∷ snapshots) paging = elim (first_waiting paging 0 (s ∷ t ∷ snapshots)) [
  | some i ↦ some i
  | none ↦ some (emptiest 0 (free_memory s) 1 (t ∷ snapshots))
]

abbrev pub waits_at : Paging → ℕ → List Snapshot → Bool
waits_at paging i [] = false
waits_at paging zero (s ∷ snapshots) = waits_large paging s
waits_at paging (suc i) (s ∷ snapshots) = waits_at paging i snapshots

abbrev pub is_large : Size → Bool
is_large Size.large = true
is_large _ = false

abbrev pub is_small : Size → Bool
is_small Size.small = true
is_small _ = false

-- `may_place(index, minutes, cost, snapshots, paging, rerun_safe=rerun_safe)`
unfoldable pub may_place : ℕ → ℕ → Task → List Snapshot → Paging → Bool → Bool
unfolding region size_of waits_large
may_place index minutes cost snapshots paging rerun_safe = elim (region snapshots paging) [
  | none ↦ true
  | some there ↦
      if is_large (size_of paging cost)
      then index == there
      else if not (index == there)
      then true
      else is_small (size_of paging cost)
        && ((rerun_safe && leb minutes paging.movable_minutes)
            && not (waits_at paging there snapshots))
]
