-- ===== src/Outcomes/Record/Lines.antt =====
-- `read_jsonl` of src/lab_commons/outcomes/jsonl.py against lines and a tail.
use lab_commons.Commons.{
  ℕ, suc, ◌+◌, ◌≡◌, refl, ap, ◌∙◌, false, Option, some, List, [], ◌∷◌, ◌++◌, append_assoc, arith,
  ltb, ◌==◌, if◌then◌else◌, ok, traverse, length, length-append, take, take-append, All,
}
use lab_commons.Outcomes.Plain.{Plain, Fields}
use lab_commons.Outcomes.Record.Jsonl.{
  Bytes, newline, after_newline, split, grow, but_last, row_of, read_jsonl,
}

-- No newline inside.
abbrev pub IsLine : Bytes → Type 0
IsLine = All (λ c. (c == newline) ≡ false)

-- Each line with its newline behind it.
abbrev pub unlines : List Bytes → Bytes
unlines [] = []
unlines (l ∷ ls) = l ++ newline ∷ unlines ls

after_newline-line :
    (at found : ℕ) (l rest : Bytes)
    → IsLine l
    → after_newline at found (l ++ rest) ≡ after_newline (at + length l) found rest
unfolding after_newline
after_newline-line at found [] rest h = ap (λ n. after_newline n found rest) (omega arith)
after_newline-line at found (c ∷ l) rest h =
    ap (λ b. after_newline (suc at) (if b then suc at else found) (l ++ rest)) h.0
    ∙ after_newline-line (suc at) found l rest h.1
    ∙ ap (λ n. after_newline n found rest) (omega arith)

after_newline-newline :
    (at found : ℕ) (rest : Bytes)
    → after_newline at found (newline ∷ rest) ≡ after_newline (suc at) (suc at) rest
unfolding after_newline
after_newline-newline at found rest = refl

after_newline-tail :
    (at found : ℕ) (tail : Bytes) → IsLine tail → after_newline at found tail ≡ found
unfolding after_newline
after_newline-tail at found [] h = refl
after_newline-tail at found (c ∷ tail) h =
    ap (λ b. after_newline (suc at) (if b then suc at else found) tail) h.0
    ∙ after_newline-tail (suc at) found tail h.1

-- The last newline ends the last complete line.
pub after_newline-unlines :
    (at : ℕ) (ls : List Bytes) (tail : Bytes)
    → All IsLine ls
    → IsLine tail
    → after_newline at at (unlines ls ++ tail) ≡ at + length (unlines ls)
after_newline-unlines at [] tail hl ht = after_newline-tail at at tail ht ∙ omega arith
after_newline-unlines at (l ∷ ls) tail hl ht =
    ap (after_newline at at) (append_assoc l (newline ∷ unlines ls) tail)
    ∙ after_newline-line at at l (newline ∷ unlines ls ++ tail) hl.0
    ∙ after_newline-newline (at + length l) at (unlines ls ++ tail)
    ∙ after_newline-unlines (suc (at + length l)) ls tail hl.1 ht
    ∙ omega (arith, length-append l (newline ∷ unlines ls))

split-line : (l rest : Bytes) → IsLine l → split (l ++ newline ∷ rest) ≡ l ∷ split rest
unfolding split
split-line [] rest h = refl
split-line (c ∷ l) rest h =
    ap (λ b. if b then [] ∷ split (l ++ newline ∷ rest) else grow c (split (l ++ newline ∷ rest)))
      h.0
    ∙ ap (grow c) (split-line l rest h.1)

split-unlines : (ls : List Bytes) → All IsLine ls → split (unlines ls) ≡ ls ++ [] ∷ []
split-unlines [] h = unfold split in refl
split-unlines (l ∷ ls) h = split-line l (unlines ls) h.0 ∙ ap (λ x. l ∷ x) (split-unlines ls h.1)

but_last-snoc : {A : Type 0} (xs : List A) (x : A) → but_last (xs ++ x ∷ []) ≡ xs
unfolding but_last
but_last-snoc [] x = refl
but_last-snoc (y ∷ []) x = refl
but_last-snoc (y ∷ z ∷ xs) x = ap (λ l. y ∷ l) (but_last-snoc (z ∷ xs) x)

complete :
    (ls : List Bytes) (tail : Bytes)
    → All IsLine ls
    → but_last (split (take (0 + length (unlines ls)) (unlines ls ++ tail))) ≡ ls
complete ls tail h =
    let e : 0 + length (unlines ls) ≡ length (unlines ls) = omega arith in
    rw e (rw (take-append (unlines ls) tail) (rw (split-unlines ls h) (but_last-snoc ls [])))

-- A file of complete lines that spell objects, and a tail with no newline: the rows are those
-- objects, the good bytes are those of the lines, and it is torn exactly when there is a tail.
pub read-unlines :
    (loads : Bytes → Option Plain) (ls : List Bytes) (tail : Bytes) (rows : List Fields)
    → All IsLine ls
    → IsLine tail
    → traverse (row_of loads) ls ≡ ok rows
    → read_jsonl loads (some (unlines ls ++ tail))
      ≡ ok (record { rows = rows; good_bytes = length (unlines ls); torn = ltb 0 (length tail) })
unfolding read_jsonl
read-unlines loads ls tail rows hl ht hr =
    rw (after_newline-unlines 0 ls tail hl ht)
      (rw (complete ls tail hl) (rw hr (ground (arith, length-append (unlines ls) tail))))
