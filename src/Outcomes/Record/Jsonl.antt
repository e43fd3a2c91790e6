-- ===== src/Outcomes/Record/Jsonl.antt =====
-- src/lab_commons/outcomes/jsonl.py: the complete rows of a file of bytes. `loads` stands for
-- `json.loads` of one line: the value that the line spells, if it spells one.
use lab_commons.Commons.{
  ℕ, suc, Bool, false, Option, none, some, List, [], ◌∷◌, ltb, ◌==◌, if◌then◌else◌, Result, ok, err,
  Error, ◌>>=◌, traverse, length, take,
}
use lab_commons.Outcomes.Plain.{Plain, obj, Fields}

abbrev pub Bytes : Type 0
Bytes = List ℕ

abbrev pub newline : ℕ
newline = b'\n'

pub record JsonlRead : Type 0 where
  pub rows : List Fields
  pub good_bytes : ℕ
  pub torn : Bool

-- `data.rfind(b'\n') + 1`, from a position on: 0 when there is no newline.
unfoldable pub after_newline : ℕ → ℕ → Bytes → ℕ
after_newline at found [] = found
after_newline at found (c ∷ cs) = after_newline (suc at) (if c == newline then suc at else found) cs

abbrev pub grow : ℕ → List Bytes → List Bytes
grow c [] = (c ∷ []) ∷ []
grow c (l ∷ ls) = (c ∷ l) ∷ ls

-- `data.split(b'\n')`
unfoldable pub split : Bytes → List Bytes
split [] = [] ∷ []
split (c ∷ cs) = let rest = split cs in if c == newline then [] ∷ rest else grow c rest

-- `lines[:-1]`
unfoldable pub but_last {ℓ} : {A : Type ℓ} → List A → List A
but_last [] = []
but_last (x ∷ []) = []
but_last (x ∷ y ∷ xs) = x ∷ but_last (y ∷ xs)

-- One line of the loop: a line that is no JSON object is refused.
abbrev pub row_of : (Bytes → Option Plain) → Bytes → Result Fields
row_of loads line = elim (loads line) [ some (obj fs) ↦ ok fs | _ ↦ err Error.torn_record ]

-- `read_jsonl(path)`: an absent file is `none`.
unfoldable pub read_jsonl : (Bytes → Option Plain) → Option Bytes → Result JsonlRead
unfolding after_newline split but_last
read_jsonl loads none = ok (record { rows = []; good_bytes = 0; torn = false })
read_jsonl loads (some content) = do
  let ends = after_newline 0 0 content
  rows ← traverse (row_of loads) (but_last (split (take ends content)))
  ok (record { rows = rows; good_bytes = ends; torn = ltb ends (length content) })
