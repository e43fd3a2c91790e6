-- ===== src/Box/Room.antt =====
-- src/lab_commons/box/supply.py (`Usage`, `Reading`, `observe`, `room`, `_seats_left`) and the measures
-- of src/lab_commons/box/providers.py without a presence reading (`_seats`, `_os`, `measured`, `size`),
-- with `os_name` of src/lab_commons/compute/probe.py.
use lab_commons.Commons.{
  ℕ, ◌+◌, ◌-◌, ◌*◌, String, Bool, false, not, ◌&&◌, ◌||◌, Option, none, some, List, [], ◌∷◌, map,
  min, max, ◌==◌, str_eq, if◌then◌else◌, Result, ok, err, Error, keep, sum_of,
}
use lab_commons.Commons.Dict.{Dict, lookup, insert, elem, keys, default}
use lab_commons.Compute.Resources.{Resources, whole, amount, of_amounts, tabulate, union, add}
use lab_commons.Compute.Admission.{Supply}
use lab_commons.Box.Demand.{cpu_name, mem_name, Capacity, Holding}

pub record Usage : Type 0 where
  pub resident_bytes : ℕ
  pub busy_cores : ℕ

-- `usage` by pid; of `unseen` only the names count.
pub record Reading : Type 0 where
  pub cores : ℕ
  pub idle_cores : ℕ
  pub total_bytes : ℕ
  pub available_bytes : ℕ
  pub usage : List (ℕ × Usage)
  pub seats_in_use : Dict ℕ
  pub unseen : List String

abbrev pub no_usage : Usage
no_usage = record { resident_bytes = 0; busy_cores = 0 }

abbrev find_usage : ℕ → List (ℕ × Usage) → Usage
find_usage pid [] = no_usage
find_usage pid ((p, u) ∷ rest) = if p == pid then u else find_usage pid rest

-- `reading.usage.get(pid, Usage(0, 0.0))`
unfoldable pub usage_of : Reading → ℕ → Usage
usage_of reading pid = find_usage pid reading.usage

-- `observe(watch, rows)`, images already in lower case: per watched name the running images that it
-- names, or, with no table of processes, every name unseen.
unfoldable pub observe : Dict (List String) → Option (List String) → Dict ℕ × List String
observe watch none = ([], keys watch)
observe watch (some images) =
    (map (λ i. (i.0, sum_of (λ image. if elem image i.1 then 1 else 0) images)) watch, [])

-- `sum(h.seats.get(name, 0) for h in held)`
unfoldable pub claimed : String → List Holding → ℕ
unfolding amount
claimed name held = sum_of (λ h. amount name h.seats) held

-- `max(0, _seats_left(name, capacity, held, reading))`; a count that is negative in Python is 0 here,
-- as its one caller makes it.
unfoldable pub seats_left : String → Capacity → List Holding → Reading → ℕ
unfolding claimed lookup amount
seats_left name capacity held reading =
    let size_of : ℕ = default 1 (lookup name capacity.seats) in
    if elem name capacity.blind
    then 0
    else if elem name capacity.watched
    then (if elem name reading.unseen || not (elem name (keys reading.seats_in_use))
        then 0
        else size_of - max (claimed name held) (amount name reading.seats_in_use))
    else size_of - claimed name held

abbrev is_asker : Option ℕ → ℕ → Bool
is_asker none pid = false
is_asker (some asker) pid = pid == asker

abbrev pub is_own : Option ℕ → Holding → Bool
is_own asker h = is_asker asker h.pid && not h.kept

-- What a claim of the asker's own has in use, and what any other claim is still owed.
abbrev pub own_cpu : Reading → Holding → ℕ
own_cpu reading h = min (h.cpu * whole) (usage_of reading h.pid).busy_cores

abbrev pub owed_cpu : Reading → Holding → ℕ
owed_cpu reading h = h.cpu * whole - (usage_of reading h.pid).busy_cores

abbrev pub own_memory : Reading → Holding → ℕ
own_memory reading h = min h.memory (usage_of reading h.pid).resident_bytes

abbrev pub owed_memory : Reading → Holding → ℕ
owed_memory reading h = h.memory - (usage_of reading h.pid).resident_bytes

-- The `cpu` of `room`, floored at 0.
unfoldable pub room_cpu : Capacity → List Holding → Reading → Option ℕ → ℕ
unfolding usage_of
room_cpu capacity held reading asker =
    let own = keep (is_own asker) held in
    let others = keep (λ h. not (is_own asker h)) held in
    min (reading.idle_cores - capacity.kept_cpu - sum_of (owed_cpu reading) others)
      (capacity.cpu - (sum_of (λ h. h.cpu * whole) others + sum_of (own_cpu reading) own))

-- The `mem` of `room`, floored at 0.
unfoldable pub room_memory : Capacity → List Holding → Reading → Option ℕ → ℕ
unfolding usage_of
room_memory capacity held reading asker =
    let own = keep (is_own asker) held in
    let others = keep (λ h. not (is_own asker h)) held in
    min (reading.available_bytes - capacity.kept_bytes - sum_of (owed_memory reading) others)
      (capacity.memory - (sum_of (λ h. h.memory) others + sum_of (own_memory reading) own))

abbrev pub seat_names : List Holding → List String
seat_names [] = []
seat_names (h ∷ held) = union (keys h.seats) (seat_names held)

-- `{**d, **e}`
abbrev pub merge : Dict ℕ → Dict ℕ → Dict ℕ
merge d [] = d
merge d ((k, v) ∷ e) = merge (insert k v d) e

-- `room(capacity, held, reading, seats=seats, asker=asker)`
unfoldable pub room : Capacity → List Holding → Reading → List String → Option ℕ → Resources
unfolding room_cpu room_memory seats_left of_amounts insert
room capacity held reading names asker = of_amounts (
    merge
      ((cpu_name, room_cpu capacity held reading asker)
        ∷ (mem_name, room_memory capacity held reading asker)
        ∷ [])
      (tabulate (λ name. seats_left name capacity held reading * whole)
        (union (keys capacity.seats) (union names (seat_names held)))))

-- `os_name(platform)`
unfoldable pub os_name : String → Result String
os_name platform =
    if str_eq platform "win32"
    then ok "windows"
    else if str_eq platform "linux"
    then ok "linux"
    else if str_eq platform "darwin"
    then ok "macos"
    else err Error.value_error

-- `_seats(capacity, held, reading, names, None)`, its counts.
unfoldable pub seat_supply : Capacity → List Holding → Reading → List String → Dict ℕ
unfolding room claimed amount
seat_supply capacity held reading names =
    let free = room capacity held reading names none in
    tabulate (λ name. amount name free + claimed name held * whole) names

-- `_os(capacity, held, reading, asker=asker, platform=...)`, `os` the name of the platform.
unfoldable pub os_supply : Capacity → List Holding → Reading → Option ℕ → String → Resources
unfolding room amount of_amounts
os_supply capacity held reading asker os =
    let free = room capacity held reading [] asker in
    let cpu = amount cpu_name free + sum_of (λ h. h.cpu * whole) held in
    let memory = amount mem_name free + sum_of (λ h. h.memory) held in
    of_amounts (merge ((cpu_name, cpu) ∷ (mem_name, memory) ∷ []) ((os, cpu) ∷ []))

-- `measured(capacity, held, reading, seats=seats, asker=asker)` of the OS named `os`.
unfoldable pub measured :
    Capacity → List Holding → Reading → List String → Option ℕ → String → Supply
unfolding seat_supply os_supply add of_amounts
measured capacity held reading names asker os =
    let tools = union (keys capacity.seats) names in
    let system = os_supply capacity held reading asker os in
    record {
      scope = "box";
      resources = add system (of_amounts (seat_supply capacity held reading tools));
      listed = union tools (union (keys system) (cpu_name ∷ mem_name ∷ []));
    }

-- `size(capacity, seats)`
unfoldable pub size : Capacity → List String → Supply
unfolding of_amounts lookup insert
size capacity names =
    let vector = of_amounts (
      merge ((cpu_name, capacity.cpu) ∷ (mem_name, capacity.memory) ∷ [])
        (tabulate (λ n. default 1 (lookup n capacity.seats) * whole) names)) in
    record { scope = "box"; resources = vector; listed = union (keys vector) (cpu_name ∷ []) }
