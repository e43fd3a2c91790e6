-- ===== src/Hpc/Round/Stream.antt =====
-- src/lab_commons/hpc/pytest_item.py: `badness`, `canonical` and `read_stream`. A line of a stream is what
-- `json.loads` makes of it; times are in milliseconds, to which the code rounds.
use lab_commons.Commons.{
  ℕ, ◌+◌, String, Bool, true, false, not, ◌||◌, Option, none, some, List, [], ◌∷◌, str_eq, ltb,
  if◌then◌else◌,
}
use lab_commons.Commons.Dict.{Dict, elem, lookup, insert, default}
use lab_commons.Commons.Int.{ℤ, pos, negsuc}
use lab_commons.Outcomes.Plain.{Plain, str, obj, Fields, get_field}

-- The closing record of an item: `done`, `wall` and `peak_mb`.
pub record Done : Type 0 where
  pub code : ℤ
  pub wall : ℕ
  pub peak : Option ℕ

-- A line by the first of the keys `done`, `start` and `id` that it has. Of one with an `id` it holds the
-- fields beside `id`, `s` and `item`, and `s`.
pub data Line : Type 0 where
  closes : Done → Line
  starts : String → Line
  says : String → Fields → Option ℕ → Line
  other : Line

-- `folded`
pub record Folded : Type 0 where
  pub cells : Dict Fields
  pub seconds : Dict ℕ
  pub closed : Option Done
  pub started : Option String

-- `str(plain[key])`; a value that is no text spells none of the words that it is compared with.
abbrev pub text_of : Option Plain → String
text_of (some (str s)) = s
text_of _ = ""

-- `DECIDED`
unfoldable pub is_decided_word : String → Bool
is_decided_word s = str_eq s "ok" || (str_eq s "rejected" || str_eq s "not_applicable")

-- `(plain.get('expectation') or {}).get('status', 'ok')`
abbrev expected_word : Option Plain → String
expected_word (some (obj fs)) = elim (get_field "status" fs) [
  | none ↦ "ok"
  | some p ↦ text_of (some p)
]
expected_word _ = "ok"

-- `badness(plain)`
unfoldable pub badness : Fields → ℕ
unfolding is_decided_word
badness plain =
    let status = text_of (get_field "status" plain) in
    if not (is_decided_word status)
    then 1
    else if str_eq status (expected_word (get_field "expectation" plain))
        || str_eq status "not_applicable"
    then 2
    else 0

-- `_RETIRED_BADNESS`
abbrev retired_badness : String → ℕ
retired_badness word = if str_eq word "failed" then 0 else if str_eq word "error" then 1 else 2

abbrev pub has_status : Fields → Bool
has_status line = elim (get_field "status" line) [ none ↦ false | some _ ↦ true ]

-- `_line_badness(line)`
unfoldable pub line_badness : Fields → ℕ
unfolding badness
line_badness line =
    if has_status line then badness line else retired_badness (text_of (get_field "outcome" line))

-- The text before its last `@`, if it has one.
before_at : String → Option String
before_at String.[] = none
before_at (String.◌∷◌ c s) = elim (before_at s) [
  | some head ↦ some (String.◌∷◌ c head)
  | none ↦ if str_eq (String.◌∷◌ c String.[]) "@" then some String.[] else none
]

-- `canonical(node, expected)`
unfoldable pub canonical : String → List String → String
unfolding before_at
canonical node expected = if elem node expected then node else (elim (before_at node) [
  | none ↦ node
  | some head ↦ if elem head expected then head else node
])

abbrev is_worse : Fields → Option Fields → Bool
is_worse plain none = true
is_worse plain (some held) = ltb (line_badness plain) (line_badness held)

abbrev timed : String → Option ℕ → Dict ℕ → Dict ℕ
timed node none seconds = seconds
timed node (some s) seconds = insert node (default 0 (lookup node seconds) + s) seconds

-- What a line with an `id` adds.
unfoldable pub say : Folded → String → Fields → Option ℕ → Folded
unfolding line_badness
say f node plain s = record f {
  cells = if is_worse plain (lookup node f.cells) then insert node plain f.cells else f.cells;
  seconds = timed node s f.seconds;
}

-- One turn of the loop of `read_stream`.
unfoldable pub read_line : List String → Folded → Line → Folded
unfolding canonical say
read_line ids f (closes done) = record f { closed = some done }
read_line ids f (starts node) = record f { started = some (canonical node ids) }
read_line ids f (says node plain s) =
    if elem (canonical node ids) ids then say f (canonical node ids) plain s else f
read_line ids f other = f

-- The loop of `read_stream`; a line that is no JSON is `none`.
unfoldable pub read_lines : List String → Folded → List (Option Line) → Folded
unfolding read_line
read_lines ids f [] = f
read_lines ids f (none ∷ lines) = read_lines ids f lines
read_lines ids f (some line ∷ lines) = read_lines ids (read_line ids f line) lines

-- `read_stream(text, node_ids)`
unfoldable pub read_stream : List (Option Line) → List String → Folded
unfolding read_lines
read_stream lines ids =
    read_lines ids (record { cells = []; seconds = []; closed = none; started = none }) lines

-- `done is not None and done['done'] < 0`
abbrev pub is_signalled : Option Done → Bool
is_signalled none = false
is_signalled (some d) = elim d.code [ pos _ ↦ false | negsuc _ ↦ true ]
