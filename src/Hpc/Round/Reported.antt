-- ===== src/Hpc/Round/Reported.antt =====
-- `read_stream` of src/lab_commons/hpc/pytest_item.py: what an item reports is of its ids.
use lab_commons.Commons.{
  ℕ, String, ◌≡◌, refl, Bool, true, false, not, ◌||◌, Option, none, some, List, [], ◌∷◌, eq_iff,
  str_eq, if◌then◌else◌, arith,
}
use lab_commons.Commons.Dict.{Dict, elem, keys, insert}
use lab_commons.Outcomes.Plain.{Fields}
use lab_commons.Hpc.Round.Stream.{
  Line, closes, starts, says, other, Folded, read_stream, read_lines, read_line, canonical, say,
}
use lab_commons.Hpc.Round.Measured.{unreported}
use lab_commons.Hpc.Round.Covers.{elem-insert, elem-keep}

-- Only ids of the item are reported.
put_if-known :
    (better : Bool) (node : String) (plain : Fields) (cells : Dict Fields) (k : String)
    → elem k (keys (if better then insert node plain cells else cells)) ≡ true
    → (elem k (keys cells) || str_eq node k) ≡ true
put_if-known true node plain cells k h = ground (arith, elem-insert k node plain cells)
put_if-known false node plain cells k h = ground arith

say-known :
    (f : Folded) (node : String) (plain : Fields) (t : Option ℕ) (k : String)
    → elem k (keys (say f node plain t).cells) ≡ true
    → (elem k (keys f.cells) || str_eq node k) ≡ true
unfolding say
say-known f node plain t k h = put_if-known _ node plain f.cells k h

said-known :
    (ids : List String) (f : Folded) (node : String) (plain : Fields) (t : Option ℕ) (k : String)
    (known : Bool)
    → elem node ids ≡ known
    → elem k (keys (if known then say f node plain t else f).cells) ≡ true
    → (elem k (keys f.cells) || elem k ids) ≡ true
said-known ids f node plain t k true e h = ground (arith, say-known f node plain t k, eq_iff node k)
said-known ids f node plain t k false e h = ground arith

read_line-known :
    (ids : List String) (f : Folded) (line : Line) (k : String)
    → elem k (keys (read_line ids f line).cells) ≡ true
    → (elem k (keys f.cells) || elem k ids) ≡ true
unfolding read_line
read_line-known ids f (closes done) k h = ground arith
read_line-known ids f (starts node) k h = ground arith
read_line-known ids f (says node plain t) k h =
    said-known ids f (canonical node ids) plain t k (elem (canonical node ids) ids) refl h
read_line-known ids f other k h = ground arith

read_lines-known :
    (ids : List String) (f : Folded) (lines : List (Option Line)) (k : String)
    → elem k (keys (read_lines ids f lines).cells) ≡ true
    → (elem k (keys f.cells) || elem k ids) ≡ true
unfolding read_lines
read_lines-known ids f [] k h = ground arith
read_lines-known ids f (none ∷ lines) k h = read_lines-known ids f lines k h
read_lines-known ids f (some line ∷ lines) k h =
    ground
      (arith, read_lines-known ids (read_line ids f line) lines k h, read_line-known ids f line k)

-- What an item reported and what it owes are its ids.
pub reported-or_owed :
    (ids : List String) (lines : List (Option Line)) (k : String)
    → (elem k (keys (read_stream lines ids).cells)
        || elem k (unreported ids (read_stream lines ids)))
      ≡ elem k ids
unfolding read_stream
reported-or_owed ids lines k =
    let f = read_stream lines ids in
    ground (
      arith,
      elem-keep (λ n. not (elem n (keys f.cells))) k ids,
      read_lines-known ids (record { cells = []; seconds = []; closed = none; started = none })
          lines k,
    )
