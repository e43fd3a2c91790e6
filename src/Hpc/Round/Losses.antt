-- ===== src/Hpc/Round/Losses.antt =====
-- src/lab_commons/hpc/records.py: `_plain`, `_cell` and `_killed_after`, and what a round is folded with. The
-- sentence of a reason is an argument (`told`), as it is the numbers in it that vary.
use lab_commons.Commons.{
  ℕ, zero, suc, ◌-◌, String, Bool, ◌&&◌, Option, none, some, List, [], ◌∷◌, leb, ◌==◌, get_elem?,
  if◌then◌else◌, Result, ok, err, Error, ◌>>=◌,
}
use lab_commons.Commons.Int.{ℤ}
use lab_commons.Outcomes.Status.{Status, Evidence}
use lab_commons.Outcomes.Plain.{Fields, get_field}
use lab_commons.Hpc.Shards.{Range}
use lab_commons.Hpc.TestCells.{test_from_plain, test_to_plain, upgraded}
use lab_commons.Hpc.Round.Stream.{Folded, text_of, has_status, is_signalled}

-- `_plain(line)`
unfoldable pub plain_of : Fields → Result Fields
unfolding test_from_plain test_to_plain upgraded
plain_of line =
    if has_status line then (do one ← test_from_plain line; ok (test_to_plain one)) else (do
      read ← upgraded (text_of (get_field "outcome" line)) (text_of (get_field "why" line))
      elim read [ none ↦ err Error.value_error | some one ↦ ok (test_to_plain one) ])

-- What the sentence of a reason says, with the numbers in it.
pub data Notice : Type 0 where
  never_reported exited_while : ℤ → Notice
  cut_at : ℕ → Notice
  alone_at : ℕ → Option ℕ → Notice

-- What a round is folded with beside its items and streams: Slurm's account of its shards, and the sentences.
pub record Setting : Type 0 where
  pub share : ℕ → ℕ → ℕ
  pub shards : List Range
  pub walls : List ℕ
  pub oom : ℕ → Option ℕ
  pub alone : ℕ → Option ℕ
  pub timed_out : ℕ → Bool
  pub tops : ℕ → Option ℕ
  pub told : Notice → String

-- `_cell(status, kind, text)`
unfoldable pub loss_cell : Status → String → String → Fields
unfolding test_to_plain
loss_cell status kind text = test_to_plain (record {
  cell = record {
    status = status;
    values = [];
    reason = some (record { kind = kind; text = text });
    evidence = Evidence.observed;
    cost = none;
  };
  expectation = none;
})

-- `_KILL_SLACK_S`
abbrev pub kill_slack : ℕ
kill_slack = 60000

-- `shard_of.get(index)`: a later shard's range overrides an earlier one's.
unfoldable pub shard_of : List Range → ℕ → ℕ → Option ℕ
shard_of [] n i = none
shard_of ((a, b) ∷ shards) n i = elim (shard_of shards (suc n) i) [
  | some later ↦ some later
  | none ↦ if leb a i && leb (suc i) b then some n else none
]

-- `spent.get(index, 0.0)`, the latest entry first.
unfoldable pub spent_of : List (ℕ × ℕ) → ℕ → ℕ
spent_of [] i = 0
spent_of ((j, s) ∷ spent) i = if j == i then s else spent_of spent i

-- The inner loop of `_killed_after`, over as many indices as are left of the shard.
unfoldable pub killed_in : List Folded → ℕ → ℕ → ℕ → List (ℕ × ℕ) → Result (List (ℕ × ℕ))
killed_in folds zero i left spent = ok spent
killed_in folds (suc count) i left spent = elim (get_elem? folds i) [
  | none ↦ err Error.index_error
  | some f ↦ elim f.closed [
    | none ↦ ok ((i, left) ∷ spent)
    | some done ↦
        killed_in folds count (suc i) (left - done.wall)
          (if is_signalled (some done) then (i, done.wall) ∷ spent else spent)
  ]
]

-- `_killed_after(folds, shards, walls)`
unfoldable pub killed_after :
    List Folded → List Range → List ℕ → List (ℕ × ℕ) → Result (List (ℕ × ℕ))
unfolding killed_in
killed_after folds [] [] spent = ok spent
killed_after folds ((a, b) ∷ shards) (wall ∷ walls) spent = do
  more ← killed_in folds (b - a) a wall spent
  killed_after folds shards walls more
killed_after folds _ _ spent = err Error.value_error
