-- ===== src/Hpc/Plan/Session.antt =====
-- src/lab_commons/hpc/allocation.py: what a session may hold of the pool. A share is exact: an amount, a
-- quotient of two, or no end of it; the code's floats round the quotient. Memory is in bytes.
use lab_commons.Commons.{
  ℕ, zero, suc, ◌+◌, ◌-◌, ◌*◌, ◌/◌, String, Bool, true, false, not, ◌||◌, Option, none, some, List,
  [], ◌∷◌, map, min, str_eq, ltb, leb, length, if◌then◌else◌, Result, ok, Error, ◌>>◌, guard,
}
use lab_commons.Commons.Dict.{Dict, lookup, insert, default}
use lab_commons.Hpc.Plan.Quota.{Held, nothing_held, add_held, Snapshot, Cost}

-- `Session`: its caps, its ceilings of one task, and what an override fixes for others.
pub record Session : Type 0 where
  pub name : String
  pub cpus : Option ℕ
  pub memory : Option ℕ
  pub tasks : Option ℕ
  pub task_cpus : Option ℕ
  pub task_memory : Option ℕ
  pub fixed : List (String × ℕ × ℕ)

pub data Share : Type 0 where
  part : ℕ → ℕ → Share
  endless : Share

-- `UNTAGGED`
abbrev pub stream_name : String → String
stream_name tag = if str_eq tag "" then "untagged" else tag

abbrev add_usage : Dict Held → Dict Held → Dict Held
add_usage held [] = held
add_usage held ((tag, usage) ∷ rest) =
    let name = stream_name tag in
    add_usage (insert name (add_held (default nothing_held (lookup name held)) usage) held) rest

-- `active(snapshots)`, from what is held so far on.
unfoldable pub active : Dict Held → List Snapshot → Dict Held
active held [] = held
active held (s ∷ snapshots) = active (add_usage held s.usage) snapshots

abbrev both : Option ℕ → Option ℕ → Option ℕ
both (some a) (some b) = some (a + b)
both _ _ = none

-- `pool(snapshots)`: `none` is `math.inf`.
unfoldable pub pool : List Snapshot → Option ℕ × Option ℕ
pool [] = (some 0, some 0)
pool (s ∷ snapshots) =
    let (cpus, memory) = pool snapshots in (both s.quota.cpus cpus, both s.quota.memory memory)

-- `a <= b` of two demands, of which `none` is `math.inf`.
abbrev pub demand_le : Option ℕ → Option ℕ → Bool
demand_le a none = true
demand_le none (some b) = false
demand_le (some a) (some b) = leb a b

abbrev pub place_demand : String × Option ℕ → Dict (Option ℕ) → Dict (Option ℕ)
place_demand i [] = i ∷ []
place_demand i (j ∷ waiting) =
    let later = place_demand i waiting in if demand_le i.1 j.1 then i ∷ j ∷ waiting else j ∷ later

-- `sorted(demands, key=lambda name: demands[name])`, with each name's demand.
unfoldable pub by_demand : Dict (Option ℕ) → Dict (Option ℕ)
by_demand [] = []
by_demand (i ∷ demands) = place_demand i (by_demand demands)

-- `demands[name] > left / n`
abbrev pub is_past : Option ℕ → ℕ → ℕ → Bool
is_past none left n = true
is_past (some d) left n = ltb left (d * n)

abbrev pub even : ℕ → ℕ → Dict (Option ℕ) → Dict Share
even left n [] = []
even left n ((name, d) ∷ waiting) = (name, part left n) ∷ even left n waiting

-- The loop of `fair`.
unfoldable pub fair_loop : ℕ → Dict (Option ℕ) → Dict Share
fair_loop left [] = []
fair_loop left ((name, none) ∷ waiting) = even left (suc (length waiting)) ((name, none) ∷ waiting)
fair_loop left ((name, some d) ∷ waiting) =
    let rest = fair_loop (left - d) waiting in
    if is_past (some d) left (suc (length waiting))
    then even left (suc (length waiting)) ((name, some d) ∷ waiting)
    else (name, part d 1) ∷ rest

abbrev whole : Option ℕ → Share
whole none = endless
whole (some d) = part d 1

-- `fair(capacity, demands)`
unfoldable pub fair : Option ℕ → Dict (Option ℕ) → Dict Share
unfolding by_demand fair_loop
fair none demands = map (λ i. (i.0, whole i.1)) demands
fair (some capacity) demands = fair_loop capacity (by_demand demands)

abbrev less : Option ℕ → ℕ → Option ℕ
less none used = none
less (some n) used = some (n - used)

-- What the named sessions leave of the pool: the loop of `derived`.
unfoldable pub left_of :
    Dict Held → List (String × ℕ × ℕ) → Option ℕ × Option ℕ → Option ℕ × Option ℕ
left_of held [] left = left
left_of held ((name, cap_cpus, cap_memory) ∷ fixed) (cpus, memory) =
    let used = default nothing_held (lookup name held) in
    left_of held fixed
      (less cpus (min cap_cpus used.cpus), less memory (min cap_memory used.memory))

abbrev is_named : String → List (String × ℕ × ℕ) → Bool
is_named name [] = false
is_named name ((n, cpus, memory) ∷ fixed) = str_eq n name || is_named name fixed

abbrev pub demands_of : String → (Held → ℕ) → List (String × ℕ × ℕ) → Dict Held → Dict (Option ℕ)
demands_of name amount fixed [] = []
demands_of name amount fixed ((tag, h) ∷ held) =
    let rest = demands_of name amount fixed held in
    if str_eq tag name || is_named tag fixed then rest else (tag, some (amount h)) ∷ rest

-- `derived(name, snapshots, fixed)`, of a table of distinct names.
unfoldable pub derived : String → List Snapshot → List (String × ℕ × ℕ) → Share × Share
unfolding active pool left_of fair
derived name snapshots fixed =
    let held = active [] snapshots in
    let (cpus, memory) = left_of held fixed (pool snapshots) in
    let by_cpu = fair cpus ((name, none) ∷ demands_of name (λ h. h.cpus) fixed held) in
    let by_memory = fair memory ((name, none) ∷ demands_of name (λ h. h.memory) fixed held) in
    (default endless (lookup name by_cpu), default endless (lookup name by_memory))

abbrev is_past_ceiling : ℕ → Option ℕ → Bool
is_past_ceiling asked none = false
is_past_ceiling asked (some ceiling) = ltb ceiling asked

-- `(share - held) // cost`, no less than zero; `none` is `math.inf`.
unfoldable pub fits_in : Share → ℕ → ℕ → Option ℕ
fits_in endless held cost = none
fits_in (part n d) held zero = none
fits_in (part n d) held (suc cost) = some ((n - held * d) / (d * suc cost))

abbrev pub least : Option ℕ → Option ℕ → Option ℕ
least none b = b
least (some a) none = some a
least (some a) (some b) = some (min a b)

-- The session's shares: its caps, or what is derived.
unfoldable pub shares_of : Session → List Snapshot → Share × Share
unfolding derived
shares_of s snapshots = elim s.cpus [
  | none ↦ derived s.name snapshots s.fixed
  | some cpus ↦ elim s.memory [
    | none ↦ derived s.name snapshots s.fixed
    | some memory ↦ (part cpus 1, part memory 1)
  ]
]

-- `sum((s.usage.get(session.name, Held()) for s in snapshots), Held())`
unfoldable pub held_by : String → List Snapshot → Held
held_by name [] = nothing_held
held_by name (s ∷ snapshots) =
    add_held (default nothing_held (lookup name s.usage)) (held_by name snapshots)

-- `session_room(session, snapshots, cost)`
unfoldable pub session_room : Option Session → List Snapshot → Cost → Result (Option ℕ)
unfolding shares_of held_by fits_in
session_room none snapshots cost = ok none
session_room (some s) snapshots cost = do
  guard (not (is_past_ceiling cost.cpus s.task_cpus || is_past_ceiling cost.memory s.task_memory))
      Error.value_error
  let (cpus, memory) = shares_of s snapshots
  let held = held_by s.name snapshots
  ok (
      least (less s.tasks held.tasks)
        (least (fits_in cpus held.cpus cost.cpus) (fits_in memory held.memory cost.memory)))
