-- ===== src/Outcomes/Record/Durable.antt =====
-- The bytes of the file of a record (src/lab_commons/outcomes/record.py) as lines and a tail.
use lab_commons.Commons.{
  suc, ◌+◌, String, ◌≡◌, refl, sym, ap, ap₂, ◌∙◌, subst, true, false, Option, none, some, List, [],
  ◌∷◌, ◌++◌, append-nil, append_assoc, arith, ltb, if◌then◌else◌, Result, ok, >>=-eq-ok, ok_inj,
  traverse, inl, inr, Bool-cases, ltb→ge, length, length-append, take, take-append, All, All-append,
}
use lab_commons.Outcomes.Plain.{Plain, Fields}
use lab_commons.Outcomes.Cell.Parts.{Cell}
use lab_commons.Outcomes.Record.Event.{Event, event_to_plain, event_from_plain}
use lab_commons.Outcomes.Record.Jsonl.{
  Bytes, newline, JsonlRead, row_of, read_jsonl, after_newline, split, but_last,
}
use lab_commons.Outcomes.Record.Lines.{IsLine, unlines, read-unlines, after_newline-unlines}
use lab_commons.Outcomes.Record.Log.{
  Record, numbered, apply, apply_cell, write_line, append, replay_into, open_record, blank_record,
}
use lab_commons.Outcomes.Record.Append.{append-cases}

-- The file of `r` is the complete lines `ls` and the unterminated `tail`, and `r` knows it.
pub record OnDisk (ls : List Bytes) (tail : Bytes) (r : Record) : Type 0 where
  pub layout : r.file ≡ unlines ls ++ tail
  pub good : r.good_bytes ≡ length (unlines ls)
  pub broken : r.torn ≡ ltb 0 (length tail)
  pub complete : All IsLine ls
  pub open_end : IsLine tail

disk-apply_cell :
    (r : Record) (k : String) (o : Option Cell)
    → ((apply_cell r k o).file ≡ r.file)
      × ((apply_cell r k o).good_bytes ≡ r.good_bytes)
      × ((apply_cell r k o).torn ≡ r.torn)
unfolding apply_cell
disk-apply_cell r k none = (refl, refl, refl)
disk-apply_cell r k (some c) = (refl, refl, refl)

unlines-snoc :
    (ls : List Bytes) (l : Bytes) → unlines (ls ++ l ∷ []) ≡ unlines ls ++ (l ++ newline ∷ [])
unlines-snoc [] l = refl
unlines-snoc (m ∷ ls) l =
    ap (λ x. m ++ newline ∷ x) (unlines-snoc ls l)
    ∙ sym (append_assoc m (newline ∷ unlines ls) (l ++ newline ∷ []))

nil_of_length : (xs : Bytes) → ltb 0 (length xs) ≡ false → xs ≡ []
nil_of_length [] h = refl
nil_of_length (x ∷ xs) h = absurd (omega (arith, ltb→ge 0 (suc (length xs)) h))

-- What `append` keeps of the file: the complete lines.
kept_lines :
    (ls : List Bytes) (tail : Bytes) (r : Record)
    → OnDisk ls tail r
    → (if r.torn then take r.good_bytes r.file else r.file) ≡ unlines ls
kept_lines ls tail r d = elim (Bool-cases (ltb 0 (length tail))) [
  | inl cut ↦ rw (d.broken ∙ cut) (rw (d.good, d.layout) (take-append (unlines ls) tail))
  | inr whole ↦
      rw (d.broken ∙ whole)
        (d.layout ∙ ap (λ x. unlines ls ++ x) (nil_of_length tail whole) ∙ append-nil (unlines ls))
]

module _ (dumps : Fields → Result Bytes)
    (one_line : (f : Fields) (text : Bytes) → dumps f ≡ ok text → IsLine text) where
  write_line-OnDisk :
      (ls : List Bytes) (tail : Bytes) (r : Record) (e : Event) (text : Bytes)
      → OnDisk ls tail r
      → IsLine text
      → OnDisk (ls ++ text ∷ []) [] (write_line dumps r e text)
  unfolding write_line
  write_line-OnDisk ls tail r e text d h =
      let line = text ++ newline ∷ [] in
      let s = record r {
        file = (if r.torn then take r.good_bytes r.file else r.file) ++ line;
        torn = false;
        good_bytes = r.good_bytes + length line;
        events = r.events ++ e ∷ [];
      } in
      let (f, g, b) = disk-apply_cell s e.key e.cell in
      let joined : unlines (ls ++ text ∷ []) ≡ unlines ls ++ line = unlines-snoc ls text in
      record {
        layout =
            f
            ∙ ap (λ x. x ++ line) (kept_lines ls tail r d)
            ∙ sym joined
            ∙ sym (append-nil (unlines (ls ++ text ∷ [])));
        good =
            g
            ∙ ap (λ n. n + length line) d.good
            ∙ sym (length-append (unlines ls) line)
            ∙ ap length (sym joined);
        broken = b;
        complete = All-append IsLine ls (text ∷ []) d.complete (h, tt);
        open_end = tt;
      }

  -- A file of complete lines and a tail gets one more line, the tail cut off; its text is that of
  -- the event as it was numbered.
  pub append-OnDisk :
      (ls : List Bytes) (tail : Bytes) (r t : Record) (event : Event)
      → OnDisk ls tail r
      → append dumps r event ≡ ok (true, t)
      → (text : Bytes) × (dumps (event_to_plain (numbered r event)) ≡ ok text)
        × OnDisk (ls ++ text ∷ []) [] t
  append-OnDisk ls tail r t event d h = elim (append-cases dumps r event true t h) [
    | inl (no_way, _) ↦ cc
    | inr (_, w) ↦ (
      w.text,
      w.spelled,
      rw w.result
          (write_line-OnDisk ls tail r (numbered r event) w.text d (one_line _ w.text w.spelled)),
    )
  ]

-- Reading the file of a record again gives the rows of its lines, and says what is torn.
pub read-OnDisk :
    (loads : Bytes → Option Plain) (ls : List Bytes) (tail : Bytes) (r : Record)
    (rows : List Fields)
    → OnDisk ls tail r
    → traverse (row_of loads) ls ≡ ok rows
    → read_jsonl loads (some r.file)
      ≡ ok (record { rows = rows; good_bytes = r.good_bytes; torn = r.torn })
read-OnDisk loads ls tail r rows d h =
    ap (λ f. read_jsonl loads (some f)) d.layout
    ∙ read-unlines loads ls tail rows d.complete d.open_end h
    ∙ ap₂ (λ n b. ok (record { rows = rows; good_bytes = n; torn = b })) (sym d.good) (sym d.broken)

replay_into-disk :
    (es : List Event) (r : Record)
    → ((replay_into r es).file ≡ r.file)
      × ((replay_into r es).good_bytes ≡ r.good_bytes)
      × ((replay_into r es).torn ≡ r.torn)
unfolding replay_into apply
replay_into-disk [] r = (refl, refl, refl)
replay_into-disk (event ∷ es) r =
    let e = numbered r event in
    let s = record r { events = r.events ++ e ∷ [] } in
    let (f, g, b) = disk-apply_cell s e.key e.cell in
    let (f', g', b') = replay_into-disk es (apply_cell s e.key e.cell) in (f' ∙ f, g' ∙ g, b' ∙ b)

read_jsonl-ends :
    (loads : Bytes → Option Plain) (ls : List Bytes) (tail : Bytes) (read : JsonlRead)
    → All IsLine ls
    → IsLine tail
    → read_jsonl loads (some (unlines ls ++ tail)) ≡ ok read
    → (read.good_bytes ≡ length (unlines ls)) × (read.torn ≡ ltb 0 (length tail))
unfolding read_jsonl
read_jsonl-ends loads ls tail read hl ht h =
    let content = unlines ls ++ tail in
    let ends : after_newline 0 0 content ≡ length (unlines ls) =
      after_newline-unlines 0 ls tail hl ht ∙ omega arith in
    let (rows, _, h1) =
      >>=-eq-ok
        (traverse (row_of loads) (but_last (split (take (after_newline 0 0 content) content)))) _
        h in
    let made = ok_inj h1 in
    (
      sym (ap (λ (x : JsonlRead). x.good_bytes) made) ∙ ends,
      sym (ap (λ (x : JsonlRead). x.torn) made)
          ∙ ap (λ n. ltb n (length content)) ends
          ∙ ground (arith, length-append (unlines ls) tail),
    )

-- A record opened on complete lines and a tail knows where they end.
pub open_record-OnDisk :
    (loads : Bytes → Option Plain) (ls : List Bytes) (tail : Bytes) (r : Record)
    → All IsLine ls
    → IsLine tail
    → open_record loads (some (unlines ls ++ tail)) ≡ ok r
    → OnDisk ls tail r
unfolding open_record
open_record-OnDisk loads ls tail r hl ht h =
    let (read, hr, h1) = >>=-eq-ok (read_jsonl loads (some (unlines ls ++ tail))) _ h in
    let (events, _, h2) = >>=-eq-ok (traverse event_from_plain read.rows) _ h1 in
    let (g, b) = read_jsonl-ends loads ls tail read hl ht hr in
    let blank = blank_record (unlines ls ++ tail) read.good_bytes read.torn in
    let (f', g', b') = replay_into-disk events blank in
    subst (OnDisk ls tail) (ok_inj h2)
      (record { layout = f'; good = g' ∙ g; broken = b' ∙ b; complete = hl; open_end = ht })
