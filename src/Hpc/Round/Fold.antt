-- ===== src/Hpc/Round/Fold.antt =====
-- src/lab_commons/hpc/records.py: `fold`. A round's items are their lists of ids.
use lab_commons.Commons.{
  ℕ, zero, suc, ◌+◌, ◌/◌, String, Bool, false, not, ◌&&◌, ◌||◌, Option, none, some, List, [], ◌∷◌,
  ◌++◌, str_eq, leb, length, take, get_elem?, keep, traverse, if◌then◌else◌, Result, ok, err, Error,
  ◌>>=◌,
}
use lab_commons.Commons.Dict.{Dict, elem, insert, default}
use lab_commons.Commons.Int.{ℤ}
use lab_commons.Outcomes.Status.{pending, timeout, out_of_memory, error_status}
use lab_commons.Outcomes.Plain.{Fields}
use lab_commons.Hpc.Round.Stream.{Done, Line, Folded, read_stream, is_signalled}
use lab_commons.Hpc.Round.Measured.{Measured, unreported, learn, killed}
use lab_commons.Hpc.Round.Losses.{
  plain_of, Notice, never_reported, exited_while, cut_at, alone_at, Setting, loss_cell, kill_slack,
  shard_of, spent_of, killed_after,
}

-- What the loop of `fold` carries.
pub record Round : Type 0 where
  pub cells : Dict Fields
  pub measured : Measured
  pub waiting : List (List String)
  pub was_killed : Bool

unfoldable pub put_cells : Dict Fields → Dict Fields → Dict Fields
put_cells cells [] = cells
put_cells cells ((k, c) ∷ more) = put_cells (insert k c cells) more

-- `cells.update(dict.fromkeys(rest, cell))`
unfoldable pub put_each : List String → Fields → Dict Fields → Dict Fields
put_each [] c cells = cells
put_each (n ∷ ns) c cells = put_each ns c (insert n c cells)

-- `[group] if group else []`
abbrev pub if_any : List String → List (List String)
if_any [] = []
if_any (n ∷ ns) = (n ∷ ns) ∷ []

abbrev is_in : Option String → List String → Bool
is_in none names = false
is_in (some n) names = elem n names

-- The branch of an item that exited by itself; `rest` are its ids without a cell.
unfoldable pub exited : (Notice → String) → ℤ → Option String → List String → Round → Round
unfolding put_each loss_cell
exited told code none rest r = record r {
  cells = put_each rest (loss_cell pending "unreported" (told (never_reported code))) r.cells;
}
exited told code (some hit) rest r =
    if not (elem hit rest)
    then record r {
      cells = put_each rest (loss_cell pending "unreported" (told (never_reported code))) r.cells;
    }
    else record r {
      cells = insert hit (loss_cell error_status "exit" (told (exited_while code))) r.cells;
      waiting = r.waiting ++ if_any (keep (λ n. not (str_eq n hit)) rest);
    }

-- `shard in cut and top is not None and walls[shard] >= top - _KILL_SLACK_S`, with the top.
unfoldable pub cut_at_top : Setting → Option ℕ → Option ℕ
cut_at_top s none = none
cut_at_top s (some n) = elim (s.tops n) [
  | none ↦ none
  | some top ↦
      if s.timed_out n && leb top (default 0 (get_elem? s.walls n) + kill_slack)
      then some top
      else none
]

abbrev pub after_drop : ℕ → List String → List String
after_drop zero ns = ns
after_drop (suc k) [] = []
after_drop (suc k) (n ∷ ns) = after_drop k ns

-- The two halves of the ids that are retried, those that are not empty.
unfoldable pub halves : List String → List (List String)
halves rest =
    let half = (length rest + 1) / 2 in if_any (take half rest) ++ if_any (after_drop half rest)

-- The branches of an item that did not finish: cut at the longest wall, alone at the most memory, or retried.
unfoldable pub unfinished :
    (Notice → String) → Option ℕ → Option ℕ → Option ℕ → List String → Round → Result Round
unfolding loss_cell halves
unfinished told (some top) hog peak [] r = err Error.index_error
unfinished told (some top) hog peak (cut ∷ rest) r = ok (record r {
  cells = insert cut (loss_cell timeout "timeout" (told (cut_at top))) r.cells;
  waiting = r.waiting ++ if_any rest;
})
unfinished told none (some limit) peak (lone ∷ []) r = ok (record r {
  cells =
      insert lone (loss_cell out_of_memory "out_of_memory" (told (alone_at limit peak))) r.cells;
})
unfinished told none hog peak rest r = ok (record r { waiting = r.waiting ++ halves rest })

abbrev top_of : Setting → Option ℕ → Option ℕ
top_of s none = none
top_of s (some n) = s.tops n

abbrev is_cut_off : Setting → Option ℕ → Bool
is_cut_off s none = false
is_cut_off s (some n) = s.timed_out n

-- The branches of the turn of an item, by its closing record; a kill has taught the second round.
unfoldable pub settle_item :
    Setting
    → Option ℕ
    → ℕ
    → Option Done
    → Option String
    → List String
    → Round
    → Round
    → Result Round
unfolding exited unfinished cut_at_top
settle_item s shard i none hit rest seen taught =
    unfinished s.told (cut_at_top s shard) (s.alone i) none rest taught
settle_item s shard i (some done) hit rest seen taught =
    if is_signalled (some done)
    then unfinished s.told (cut_at_top s shard) (s.alone i) done.peak rest taught
    else ok (exited s.told done.code hit rest seen)

-- One turn of the loop of `fold`, once the cells that the item reported are in plain form.
unfoldable pub fold_reported :
    Setting → ℕ → ℕ → List String → Folded → Dict Fields → Round → Result Round
unfolding put_cells settle_item shard_of
fold_reported s spent i ids f told_cells r =
    let shard = shard_of s.shards 0 i in
    let seen = record r {
      cells = put_cells r.cells told_cells;
      measured = learn s.share ids f (s.oom i) r.measured;
      was_killed = r.was_killed || is_signalled f.closed;
    } in
    settle_item s shard i f.closed f.started (unreported ids f) seen (record seen {
      measured = killed s.share ids f spent (is_cut_off s shard) (top_of s shard) seen.measured;
    })

abbrev pub plain_item : String × Fields → Result (String × Fields)
plain_item (node, line) = do p ← plain_of line; ok (node, p)

-- One turn of the loop of `fold`.
unfoldable pub fold_item : Setting → ℕ → ℕ → List String → Folded → Round → Result Round
unfolding plain_of fold_reported
fold_item s spent i ids f r = do
  told_cells ← traverse plain_item f.cells
  fold_reported s spent i ids f told_cells r

abbrev pub Item : Type 0
Item = List String × List (Option Line)

-- The item's ids with what its stream folds to.
abbrev pub folded : List Item → List (List String × Folded)
folded [] = []
folded ((ids, lines) ∷ items) = (ids, read_stream lines ids) ∷ folded items

unfoldable pub fold_items :
    Setting → List (ℕ × ℕ) → ℕ → List (List String × Folded) → Round → Result Round
unfolding fold_item spent_of
fold_items s spent i [] r = ok r
fold_items s spent i ((ids, f) ∷ items) r = do
  next ← fold_item s (spent_of spent i) i ids f r
  fold_items s spent (suc i) items next

abbrev pub folds_of : List (List String × Folded) → List Folded
folds_of [] = []
folds_of ((ids, f) ∷ items) = f ∷ folds_of items

-- `sum(float(f['done']['wall']) for f in folds if f['done'] is not None)`
unfoldable pub busy : List Folded → ℕ
busy [] = 0
busy (f ∷ folds) =
    let rest = busy folds in elim f.closed [ none ↦ rest | some done ↦ done.wall + rest ]

abbrev pub begun : Dict Fields → Measured → Round
begun cells measured = record {
  cells = cells;
  measured = measured;
  waiting = [];
  was_killed = false;
}

-- `fold(items, streams, cells, measured, ...)`, with the seconds that were busy.
unfoldable pub fold : Setting → List Item → Dict Fields → Measured → Result (Round × ℕ)
unfolding killed_after fold_items busy
fold s items cells measured = do
  spent ← killed_after (folds_of (folded items)) s.shards s.walls []
  left ← fold_items s spent 0 (folded items) (begun cells measured)
  ok (left, busy (folds_of (folded items)))
