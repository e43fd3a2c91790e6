-- ===== src/Hpc/RoundSamples.antt =====
-- A round of two shards, of which the first was cut at the longest wall, and the theorems of a round at it.
use lab_commons.Commons.{
  ◌↔◌, ℕ, ◌+◌, ◌/◌, ◌≤◌, ◌<◌, arith, String, ◌≡◌, refl, true, ◌||◌, Option, none, some, List, [],
  ◌∷◌, ◌==◌, length, All, ok, err, Error,
}
use lab_commons.Commons.Dict.{Dict, elem, lookup, insert, keys}
use lab_commons.Commons.Int.{pos}
use lab_commons.Outcomes.Status.{Status, ok_status, rejected, pending, Evidence}
use lab_commons.Outcomes.Plain.{str, Fields, end, field, get_field}
use lab_commons.Outcomes.Cell.Parts.{needs_no_reason}
use lab_commons.Hpc.Shards.{Range}
use lab_commons.Hpc.Round.Stream.{closes, starts, says, read_stream}
use lab_commons.Hpc.Round.Measured.{Measured}
use lab_commons.Hpc.Round.Losses.{plain_of, Setting, shard_of}
use lab_commons.Hpc.Round.Fold.{cut_at_top, Round, Item, folded, folds_of, fold}
use lab_commons.Hpc.TestCells.{TestCell, merged}
use lab_commons.Hpc.Merge.{standing, cells_for, disagree, merged_lem}
use lab_commons.Hpc.Round.Growth.{
  Bounded, oom_rounds, is_known, grown_after, ran_alone, oom_bounded,
}
use lab_commons.Hpc.Round.Dropped.{growth_of}
use lab_commons.Hpc.Round.Regrown.{was_cut, state_at, has_finished, grown_after_lem}
use lab_commons.Hpc.Round.Lone.{
  accounted, waits_alone, losses, oom_bounded-keeps, oom_bounded-counts,
}
use lab_commons.Hpc.Round.Covers.{covered, waits}
use lab_commons.Hpc.Round.Kept.{SettlesAll, is_of, fold-keeps}
use lab_commons.Hpc.Round.Top.{ReadsAll, any_stuck, fold-index_error}

abbrev an_hour : ℕ
an_hour = 3600000

abbrev setting : Setting
setting = record {
  share = λ a n. a / n;
  shards = (0, 1) ∷ (1, 2) ∷ [];
  walls = an_hour ∷ 60000 ∷ [];
  oom = λ i. none;
  alone = λ i. none;
  timed_out = λ n. n == 0;
  tops = λ n. some an_hour;
  told = λ notice. "told";
}

abbrev passed : Fields
passed = field "outcome" (str "passed") end

-- `a.py::x` passed and `a.py::y` was cut; `b.py::z` passed in an item that exited.
abbrev cut_item : Item
cut_item = (
  "a.py::x" ∷ "a.py::y" ∷ [],
  some (starts "a.py::x")
      ∷ some (says "a.py::x" passed (some 10))
      ∷ none
      ∷ some (starts "a.py::y")
      ∷ [],
)

abbrev done_item : Item
done_item = (
  "b.py::z" ∷ [],
  some (starts "b.py::z")
      ∷ some (says "b.py::z" passed (some 20))
      ∷ some (closes (record { code = pos 0; wall = 50; peak = some 300 }))
      ∷ [],
)

abbrev nothing_measured : Measured
nothing_measured = record {
  durations = [];
  floors = [];
  overheads = [];
  peaks = [];
  id_peaks = [];
  round = [];
  taught = [];
}

settles_all : SettlesAll setting 0 (folded (cut_item ∷ done_item ∷ []))
unfolding read_stream plain_of cut_at_top shard_of lookup insert get_field needs_no_reason
settles_all = ((_, refl, refl), ((_, refl, refl), tt))

inside :
    All
      (λ (r : Range). r.1 ≤ length (folds_of (folded (cut_item ∷ done_item ∷ []))))
      (setting.shards)
inside = (omega arith, (omega arith, tt))

fold-keeps_example :
    (left : Round) × (seconds : ℕ) × (fold setting (cut_item ∷ done_item ∷ []) [] nothing_measured
      ≡ ok (left, seconds))
    × ((k : String) → covered k left ≡ (elem k [] || is_of k (cut_item ∷ done_item ∷ [])))
fold-keeps_example =
    fold-keeps setting (cut_item ∷ done_item ∷ []) [] nothing_measured refl inside settles_all

-- An item that reported all of its ids but never closed.
abbrev full_item : Item
full_item = ("a.py::x" ∷ [], some (says "a.py::x" passed (some 10)) ∷ [])

abbrev stuck_items : List Item
stuck_items = full_item ∷ done_item ∷ []

stuck_reads : ReadsAll (folded stuck_items)
unfolding read_stream plain_of lookup insert get_field needs_no_reason
stuck_reads = ((_, refl), ((_, refl), tt))

fold-index_error_example :
    (fold setting stuck_items [] nothing_measured ≡ err Error.index_error)
    ↔ (any_stuck setting 0 (folded stuck_items) ≡ true)
fold-index_error_example =
    fold-index_error setting stuck_items [] nothing_measured refl (omega arith, (omega arith, tt))
      stuck_reads

-- It stands in the way.
is_in_the_way : any_stuck setting 0 (folded stuck_items) ≡ true
unfolding read_stream cut_at_top shard_of lookup insert
is_in_the_way = refl

-- Of the first item, killed for its memory, `a.py::x` finished; the second ran alone in another shard.
abbrev two_items : List (List String)
two_items = ("a.py::x" ∷ "a.py::y" ∷ []) ∷ ("b.py::z" ∷ []) ∷ []

abbrev shard_at : ℕ → Option ℕ
shard_at i = some i

abbrev killed_states : ℕ → Option String
killed_states n = some "OUT_OF_MEMORY"

abbrev one_cell : Dict Fields
one_cell = ("a.py::x", passed) ∷ []

grown_after_lem_example :
    (after : Dict ℕ) × (grown_after two_items one_cell shard_at killed_states [] true ("b.py" ∷ [])
      ≡ ok after)
    × ((k : String)
        → lookup k after
          ≡ growth_of
              (was_cut true one_cell (state_at shard_at killed_states) k 0 two_items)
              (has_finished one_cell (state_at shard_at killed_states) k 0 two_items)
              (is_known ("b.py" ∷ []) k)
              (lookup k []))
grown_after_lem_example =
    grown_after_lem two_items one_cell shard_at killed_states [] true ("b.py" ∷ [])
      ((0, refl), ((1, refl), tt))

abbrev waiting : List (List String)
waiting = ("a.py::y" ∷ []) ∷ ("b.py::z" ∷ []) ∷ []

abbrev bounded : Bounded
bounded =
    oom_bounded (λ n. "told") waiting two_items shard_at killed_states (("b.py::z", 1) ∷ [])
      one_cell

oom_bounded-keeps_example :
    accounted "b.py::z" bounded ≡ (elem "b.py::z" (keys one_cell) || waits "b.py::z" waiting)
oom_bounded-keeps_example =
    oom_bounded-keeps (λ n. "told") waiting two_items shard_at killed_states (("b.py::z", 1) ∷ [])
      one_cell "b.py::z"

runs_alone : elem "b.py::z" (ran_alone shard_at killed_states 0 two_items) ≡ true
unfolding ran_alone
runs_alone = refl

still_waits : waits_alone "b.py::z" bounded.kept ≡ true
unfolding oom_bounded lookup
still_waits = refl

oom_bounded-counts_example :
    (losses "b.py::z" (("b.py::z", 1) ∷ []) + 1 < oom_rounds)
    × (losses "b.py::z" (("b.py::z", 1) ∷ []) < losses "b.py::z" bounded.lost)
oom_bounded-counts_example =
    oom_bounded-counts (λ n. "told") waiting two_items shard_at killed_states (("b.py::z", 1) ∷ [])
      one_cell "b.py::z" runs_alone still_waits

abbrev told_by : Status → TestCell
told_by status = record {
  cell = record {
    status = status;
    values = [];
    reason = none;
    evidence = Evidence.observed;
    cost = none;
  };
  expectation = none;
}

-- One process never reported the id, one passed it, and one rejected it.
abbrev sources : List (Dict TestCell)
sources =
    (("a.py::x", told_by pending) ∷ [])
    ∷ (("a.py::x", told_by ok_status) ∷ [])
    ∷ (("a.py::x", told_by rejected) ∷ [])
    ∷ []

merged_lem_example :
    (lookup "a.py::x" (merged sources).cells ≡ standing (cells_for "a.py::x" sources))
    × (elem "a.py::x" (merged sources).flaky ≡ disagree (cells_for "a.py::x" sources))
merged_lem_example = merged_lem "a.py::x" sources
