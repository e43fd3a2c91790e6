-- ===== src/Outcomes/Record/Reopen.antt =====
-- A record of src/lab_commons/outcomes/record.py opened again on its file.
use lab_commons.Commons.{
  ℕ, ◌+◌, String, ◌≡◌, refl, sym, ap, ◌∙◌, subst, Bool, true, false, Option, none, some, List, [],
  ◌∷◌, ◌++◌, Result, ok, >>=-eq-ok, ok_inj, traverse, if◌then◌else◌, length, take, inl, inr,
}
use lab_commons.Outcomes.Plain.{Plain, Fields, obj}
use lab_commons.Outcomes.Cell.Parts.{Cell}
use lab_commons.Outcomes.Record.Event.{Event, event_to_plain, event_from_plain}
use lab_commons.Outcomes.Record.EventRoundTrip.{EventIsSound}
use lab_commons.Outcomes.KeyOrder.{sort_fields}
use lab_commons.Outcomes.Record.SortedEvent.{EventHasOrder, from-sorted_event}
use lab_commons.Outcomes.Record.Jsonl.{Bytes, newline, row_of}
use lab_commons.Outcomes.Record.Lines.{IsLine}
use lab_commons.Outcomes.Record.Log.{
  Record, numbered, number_if, attempts_of, apply, apply_cell, write_line, append, replay_into,
  open_record, blank_record,
}
use lab_commons.Outcomes.Record.Append.{append-cases}
use lab_commons.Outcomes.Record.Durable.{OnDisk, read-OnDisk, append-OnDisk}

-- The file of `r` is the lines `ls` and a tail, the lines spell events, and replaying them gives `r`.
pub record Reopens (loads : Bytes → Option Plain) (ls : List Bytes) (tail : Bytes) (r : Record)
    : Type 0 where
  pub on_disk : OnDisk ls tail r
  pub rows : List Fields
  pub told : List Event
  pub spelled : traverse (row_of loads) ls ≡ ok rows
  pub meant : traverse event_from_plain rows ≡ ok told
  pub replayed : replay_into (blank_record r.file r.good_bytes r.torn) told ≡ r

traverse-snoc {ℓ κ} :
    {A : Type ℓ} {B : Type κ} (f : A → Result B) (xs : List A) (x : A) {ys : List B} {y : B}
    → traverse f xs ≡ ok ys
    → f x ≡ ok y
    → traverse f (xs ++ x ∷ []) ≡ ok (ys ++ y ∷ [])
traverse-snoc f [] x {y = y} h k = rw k (ap (λ l. ok (l ++ y ∷ [])) (ok_inj h))
traverse-snoc f (z ∷ xs) x {y = y} h k =
    let (w, e, h1) = >>=-eq-ok (f z) _ h in
    let (ws, e1, h2) = >>=-eq-ok (traverse f xs) _ h1 in
    rw e (rw (traverse-snoc f xs x e1 k) (ap (λ l. ok (l ++ y ∷ [])) (ok_inj h2)))

-- The record with another file.
abbrev set_file : Bytes → ℕ → Bool → Record → Record
set_file file good_bytes torn r = record r { file = file; good_bytes = good_bytes; torn = torn }

module _ (file : Bytes) (good_bytes : ℕ) (torn : Bool) where
  set_file-apply_cell :
      (r : Record) (k : String) (o : Option Cell)
      → apply_cell (set_file file good_bytes torn r) k o
        ≡ set_file file good_bytes torn (apply_cell r k o)
  unfolding apply_cell
  set_file-apply_cell r k none = refl
  set_file-apply_cell r k (some c) = refl

  -- Replaying does not look at the file.
  set_file-replay_into :
      (es : List Event) (r : Record)
      → replay_into (set_file file good_bytes torn r) es
        ≡ set_file file good_bytes torn (replay_into r es)
  unfolding replay_into apply numbered
  set_file-replay_into [] r = refl
  set_file-replay_into (event ∷ es) r =
      let e = numbered r event in
      ap (λ s. replay_into s es)
        (set_file-apply_cell (record r { events = r.events ++ e ∷ [] }) e.key e.cell)
      ∙ set_file-replay_into es (apply_cell (record r { events = r.events ++ e ∷ [] }) e.key e.cell)

replay_into-snoc :
    (es : List Event) (event : Event) (r : Record)
    → replay_into r (es ++ event ∷ []) ≡ replay_into (replay_into r es) (event ∷ [])
unfolding replay_into
replay_into-snoc [] event r = refl
replay_into-snoc (f ∷ es) event r =
    let e = numbered r f in
    replay_into-snoc es event (apply (record r { events = r.events ++ e ∷ [] }) e)

number_if_twice :
    (c : Option Cell) (attempt : Option ℕ) (n m : ℕ)
    → number_if c (number_if c attempt n) m ≡ number_if c attempt n
number_if_twice none attempt n m = refl
number_if_twice (some c) none n m = refl
number_if_twice (some c) (some a) n m = refl

-- An event that is numbered is numbered no more.
numbered_twice : (r s : Record) (event : Event) → numbered s (numbered r event) ≡ numbered r event
unfolding numbered
numbered_twice r s event =
    ap (λ a. record event { attempt = a })
      (number_if_twice event.cell event.attempt (attempts_of r event.key + 1)
        (attempts_of s event.key + 1))

pub open-Reopens :
    (loads : Bytes → Option Plain) (ls : List Bytes) (tail : Bytes) (r : Record)
    → Reopens loads ls tail r
    → open_record loads (some r.file) ≡ ok r
unfolding open_record
open-Reopens loads ls tail r d =
    rw (read-OnDisk loads ls tail r d.rows d.on_disk d.spelled) (rw d.meant (ap ok d.replayed))

module _ (dumps : Fields → Result Bytes) (loads : Bytes → Option Plain) where
  -- Replaying one event that is numbered already.
  replay-last :
      (r s : Record) (event : Event)
      → replay_into s (numbered r event ∷ [])
        ≡ apply (record s { events = s.events ++ numbered r event ∷ [] }) (numbered r event)
  unfolding replay_into
  replay-last r s event =
      ap (λ e. apply (record s { events = s.events ++ e ∷ [] }) e) (numbered_twice r s event)

  -- Replaying the events, the last of them numbered already, gives the record after its write.
  replay-write_line :
      (r : Record) (told : List Event) (event : Event) (text : Bytes)
      → replay_into (blank_record r.file r.good_bytes r.torn) told ≡ r
      → let t = write_line dumps r (numbered r event) text in
        replay_into (blank_record t.file t.good_bytes t.torn) (told ++ numbered r event ∷ []) ≡ t
  unfolding write_line apply
  replay-write_line r told event text h =
      let e = numbered r event in
      let file : Bytes =
        (if r.torn then take r.good_bytes r.file else r.file) ++ (text ++ newline ∷ []) in
      let good_bytes : ℕ = r.good_bytes + length (text ++ newline ∷ []) in
      let t = write_line dumps r e text in
      let before = blank_record file good_bytes false in
      let moved : t
          ≡ set_file file good_bytes false
              (apply_cell (record r { events = r.events ++ e ∷ [] }) e.key e.cell) =
        set_file-apply_cell file good_bytes false (record r { events = r.events ++ e ∷ [] }) e.key
          e.cell in
      let replayed : replay_into before (told ++ e ∷ []) ≡ t =
        replay_into-snoc told e before
        ∙ ap (λ s. replay_into s (e ∷ []))
            (set_file-replay_into file good_bytes false told
                (blank_record r.file r.good_bytes r.torn)
              ∙ ap (set_file file good_bytes false) h)
        ∙ replay-last r (set_file file good_bytes false r) event in
      subst
        (λ (u : Record). replay_into (blank_record u.file u.good_bytes u.torn) (told ++ e ∷ []) ≡ t)
        (sym moved) replayed

  written :
      (r t : Record) (event : Event) (text : Bytes)
      → append dumps r event ≡ ok (true, t)
      → dumps (event_to_plain (numbered r event)) ≡ ok text
      → t ≡ write_line dumps r (numbered r event) text
  written r t event text h spelled = elim (append-cases dumps r event true t h) [
    | inl (no_way, _) ↦ cc
    | inr (_, w) ↦
        w.result ∙ ap (write_line dumps r (numbered r event)) (ok_inj (sym w.spelled ∙ spelled))
  ]

  -- A record that its file gives back is so after an append that writes: opening the file that the append
  -- left gives the record that it left, events, views and attempts included. The event is one that its
  -- constructor accepts, with its data and values in the order of their keys; its line has no newline, and is
  -- read as the object that was written, with the keys of every object in it in order.
  pub append-Reopens :
      (one_line : (f : Fields) (text : Bytes) → dumps f ≡ ok text → IsLine text) (ls : List Bytes)
      (tail : Bytes) (r t : Record) (event : Event)
      → EventIsSound (numbered r event)
      → EventHasOrder (numbered r event)
      → ((text : Bytes)
          → dumps (event_to_plain (numbered r event)) ≡ ok text
          → loads text ≡ some (obj (sort_fields (event_to_plain (numbered r event)))))
      → Reopens loads ls tail r
      → append dumps r event ≡ ok (true, t)
      → ((text : Bytes) × Reopens loads (ls ++ text ∷ []) [] t)
        × (open_record loads (some t.file) ≡ ok t)
  append-Reopens one_line ls tail r t event sound order back d h =
      let (text, spelled, disk) = append-OnDisk dumps one_line ls tail r t event d.on_disk h in
      let e = numbered r event in
      let again : Reopens loads (ls ++ text ∷ []) [] t = record {
        on_disk = disk;
        rows = d.rows ++ sort_fields (event_to_plain e) ∷ [];
        told = d.told ++ e ∷ [];
        spelled =
            traverse-snoc (row_of loads) ls text d.spelled (rw (row_of, back text spelled) refl);
        meant =
            traverse-snoc event_from_plain d.rows (sort_fields (event_to_plain e)) d.meant
              (from-sorted_event e sound order);
        replayed =
            subst
              (λ (u : Record).
                replay_into (blank_record u.file u.good_bytes u.torn) (d.told ++ e ∷ []) ≡ u)
              (sym (written r t event text h spelled))
              (replay-write_line r d.told event text d.replayed);
      } in
      ((text, again), open-Reopens loads (ls ++ text ∷ []) [] t again)
