-- ===== src/Hpc/Samples.antt =====
-- Four items in two shards, and the theorems of the shards at them.
use lab_commons.Commons.{
  arith, length, true, some, ◌==◌, ◌↔◌, ok, ℕ, ◌≤◌, ◌≡◌, refl, List, [], ◌∷◌, map, All,
}
use mathlib.Core.List.{Permᴰ}
use lab_commons.Hpc.Shards.{Range, pack, slowest, counting, balance}
use lab_commons.Hpc.Region.{Paging, Task, Snapshot, region, waits_at, is_large, size_of, may_place}
use lab_commons.Hpc.Drain.{may_place-waits}
use lab_commons.Hpc.Pack.{Chains, IsBounded, pack_lem}
use lab_commons.Hpc.Loads.{seconds_at}
use lab_commons.Hpc.Faster.{balance_lem}

abbrev files : List ℕ
files = 9 ∷ 8 ∷ 2 ∷ 1 ∷ []

abbrev halves : List Range
halves = (0, 2) ∷ (2, 4) ∷ []

-- Nine and one, eight and two.
refilled : balance files halves ≡ ok (0 ∷ 3 ∷ 1 ∷ 2 ∷ [], halves)
unfolding balance
refilled = refl

balance_lem_example :
    (order : List ℕ) × (ranges : List Range) × (balance files halves ≡ ok (order, ranges))
    × Permᴰ order (counting 0 files)
    × Chains 0 (length order) ranges
    × (length ranges ≡ 2)
    × (slowest (map (seconds_at files) order) ranges ≤ slowest files halves)
balance_lem_example =
    balance_lem files (0, 2) ((2, 4) ∷ []) (refl, omega arith, (refl, omega arith, refl))

packed : pack files 5 10 ≡ (0, 1) ∷ (1, 2) ∷ (2, 4) ∷ []
unfolding pack
packed = refl

pack_lem_example : Chains 0 4 (pack files 5 10) × All (IsBounded files 10) (pack files 5 10)
pack_lem_example = pack_lem files 5 10

abbrev paging : Paging
paging = record { page_cpus = 8; page_mem = 20; large_pages = 4; movable_minutes = 30 }

-- Two accounts; on the second a task of five pages waits.
abbrev quiet : Snapshot
quiet = record { ceiling = some 360; used = 10; pending = [] }

abbrev waited_on : Snapshot
waited_on = record {
  ceiling = some 360;
  used = 300;
  pending = record { cpus = 40; memory = 20 } ∷ [];
}

abbrev small_task : Task
small_task = record { cpus = 1; memory = 4 }

waiting_pins : region (quiet ∷ waited_on ∷ []) paging ≡ some 1
unfolding region
waiting_pins = refl

may_place-waits_example :
    (there : ℕ) × (region (quiet ∷ waited_on ∷ []) paging ≡ some there)
    × (waits_at paging there (quiet ∷ waited_on ∷ []) ≡ true)
    × ((may_place 1 5 small_task (quiet ∷ waited_on ∷ []) paging true ≡ true)
        ↔ (is_large (size_of paging small_task) ≡ (1 == there)))
unfolding region
may_place-waits_example = may_place-waits 1 5 small_task quiet waited_on [] paging true refl
