-- ===== src/Outcomes/Record/Views.antt =====
-- The views that src/lab_commons/outcomes/record.py keeps beside the events, and a walk over the events.
use lab_commons.Commons.{
  ℕ, String, ◌≡◌, refl, sym, ap, ◌∙◌, subst, Bool, true, false, Option, none, some, List, [], ◌∷◌,
  ◌++◌, append-nil, arith, str_eq, eq_iff, Result, ok, >>=-eq-ok, ok_inj, get_last?, get_last?-snoc,
  traverse,
}
use lab_commons.Commons.Dict.{lookup, lookup-insert, default}
use lab_commons.Outcomes.Plain.{Plain, Fields}
use lab_commons.Outcomes.Cell.Parts.{Cell}
use lab_commons.Outcomes.Record.Event.{Event, event_to_plain, event_from_plain}
use lab_commons.Outcomes.Record.Jsonl.{Bytes, read_jsonl}
use lab_commons.Outcomes.Record.Log.{
  Record, recorded, numbered, note_key, apply_cell, apply, write_line, write_if, append, admit,
  replay_into, open_record, blank_record,
}

abbrev pub cell_if : Bool → Option Cell → List Cell → List Cell
cell_if true (some c) rest = c ∷ rest
cell_if _ _ rest = rest

-- The cells of a key's outcomes, in order.
pub cells_of : String → List Event → List Cell
cells_of k [] = []
cells_of k (e ∷ es) = cell_if (str_eq e.key k) e.cell (cells_of k es)

-- The keys of the events, each where it is seen first.
pub keys_seen : List String → List Event → List String
keys_seen ks [] = ks
keys_seen ks (e ∷ es) = keys_seen (note_key e.key ks) es

-- The views of `r` are those of the events `es`.
pub record Shows (es : List Event) (r : Record) : Type 0 where
  pub cells : (k : String) → recorded r k ≡ cells_of k es
  pub current : (k : String) → lookup k r.latest ≡ get_last? (cells_of k es)
  pub keys : r.submitted ≡ keys_seen [] es

abbrev pub Tracks : Record → Type 0
Tracks r = Shows r.events r

cells_of-snoc :
    (k : String) (es : List Event) (e : Event)
    → cells_of k (es ++ e ∷ []) ≡ cells_of k es ++ cell_if (str_eq e.key k) e.cell []
unfolding cells_of
cells_of-snoc k [] e = refl
cells_of-snoc k (f ∷ es) e = ground (arith, cells_of-snoc k es e)

keys_seen-snoc :
    (ks : List String) (es : List Event) (e : Event)
    → keys_seen ks (es ++ e ∷ []) ≡ note_key e.key (keys_seen ks es)
unfolding keys_seen
keys_seen-snoc ks [] e = refl
keys_seen-snoc ks (f ∷ es) e = keys_seen-snoc (note_key f.key ks) es e

pub recorded-apply_cell :
    (r : Record) (j : String) (o : Option Cell) (k : String)
    → recorded (apply_cell r j o) k ≡ recorded r k ++ cell_if (str_eq j k) o []
unfolding apply_cell
recorded-apply_cell r j none k = ground (arith, append-nil (default [] (lookup k r.attempts)))
recorded-apply_cell r j (some c) k = ground (
  arith,
  eq_iff j k,
  lookup-insert j k (default [] (lookup j r.attempts) ++ c ∷ []) r.attempts,
  append-nil (default [] (lookup k r.attempts)),
)

abbrev pub newest : Bool → Option Cell → Option Cell → Option Cell
newest true (some c) old = some c
newest _ _ old = old

pub current-apply_cell :
    (r : Record) (j : String) (o : Option Cell) (k : String)
    → lookup k (apply_cell r j o).latest ≡ newest (str_eq j k) o (lookup k r.latest)
unfolding apply_cell
current-apply_cell r j none k = ground arith
current-apply_cell r j (some c) k = ground (arith, lookup-insert j k c r.latest)

get_last?-cell_if :
    (b : Bool) (o : Option Cell) (past : List Cell)
    → get_last? (past ++ cell_if b o []) ≡ newest b o (get_last? past)
get_last?-cell_if true (some c) past = get_last?-snoc past c
get_last?-cell_if true none past = ap get_last? (append-nil past)
get_last?-cell_if false o past = ap get_last? (append-nil past)

submitted-apply_cell :
    (r : Record) (j : String) (o : Option Cell)
    → (apply_cell r j o).submitted ≡ note_key j r.submitted
unfolding apply_cell
submitted-apply_cell r j none = refl
submitted-apply_cell r j (some c) = refl

pub events-apply_cell :
    (r : Record) (j : String) (o : Option Cell) → (apply_cell r j o).events ≡ r.events
unfolding apply_cell
events-apply_cell r j none = refl
events-apply_cell r j (some c) = refl

-- Recording an event shows the events, one longer.
apply-Shows :
    (es : List Event) (r : Record) (e : Event) → Shows es r → Shows (es ++ e ∷ []) (apply r e)
unfolding apply
apply-Shows es r e t = record {
  cells = λ k.
      recorded-apply_cell r e.key e.cell k
      ∙ ap (λ l. l ++ cell_if (str_eq e.key k) e.cell []) (t.cells k)
      ∙ sym (cells_of-snoc k es e);
  current = λ k.
      current-apply_cell r e.key e.cell k
      ∙ ap (newest (str_eq e.key k) e.cell) (t.current k)
      ∙ sym (get_last?-cell_if (str_eq e.key k) e.cell (cells_of k es))
      ∙ sym (ap get_last? (cells_of-snoc k es e));
  keys =
      submitted-apply_cell r e.key e.cell
      ∙ ap (note_key e.key) t.keys
      ∙ sym (keys_seen-snoc [] es e);
}

-- The views do not depend on the file, nor on the list of events that is kept beside them.
rewrap-Shows :
    (es : List Event) (r : Record) (f : Bytes) (l : List Event) (n : ℕ) (b : Bool)
    → Shows es r
    → Shows es (record r { file = f; events = l; good_bytes = n; torn = b })
unfolding recorded
rewrap-Shows es r f l n b t = record { cells = t.cells; current = t.current; keys = t.keys }

apply-Tracks :
    (r : Record) (f : Bytes) (n : ℕ) (b : Bool) (e : Event)
    → Tracks r
    → Tracks
        (apply (record r { file = f; events = r.events ++ e ∷ []; good_bytes = n; torn = b }) e)
unfolding apply
apply-Tracks r f n b e t =
    let s = record r { file = f; events = r.events ++ e ∷ []; good_bytes = n; torn = b } in
    rw (events-apply_cell s e.key e.cell) (
      unfold apply in
      apply-Shows r.events s e (rewrap-Shows r.events r f (r.events ++ e ∷ []) n b t))

abbrev replayed : Record → Event → Record
replayed r event = let e = numbered r event in apply (record r { events = r.events ++ e ∷ [] }) e

replay_into-Tracks : (es : List Event) (r : Record) → Tracks r → Tracks (replay_into r es)
unfolding replay_into
replay_into-Tracks [] r t = t
replay_into-Tracks (event ∷ es) r t =
    replay_into-Tracks es (replayed r event)
      (apply-Tracks r r.file r.good_bytes r.torn (numbered r event) t)

module _ (dumps : Fields → Result Bytes) where
  write_if-Tracks :
      (b : Bool) (r : Record) (e : Event) (out : Bool × Record)
      → Tracks r
      → write_if dumps b r e ≡ ok out
      → Tracks out.1
  unfolding write_line
  write_if-Tracks false r e out t h = subst (λ (o : Bool × Record). Tracks o.1) (ok_inj h) t
  write_if-Tracks true r e out t h =
      let (text, _, h1) = >>=-eq-ok (dumps (event_to_plain e)) _ h in
      subst (λ (o : Bool × Record). Tracks o.1) (ok_inj h1) (apply-Tracks r _ _ false e t)

  -- An append that returns keeps the views those of the events, whether it wrote or not.
  pub append-Tracks :
      (r : Record) (event : Event) (out : Bool × Record)
      → Tracks r
      → append dumps r event ≡ ok out
      → Tracks out.1
  unfolding append
  append-Tracks r event out t h =
      let (fresh, _, h1) = >>=-eq-ok (admit r (numbered r event)) _ h in
      write_if-Tracks fresh r (numbered r event) out t h1

pub blank_record-Tracks : (f : Bytes) (n : ℕ) (b : Bool) → Tracks (blank_record f n b)
unfolding recorded cells_of keys_seen lookup
blank_record-Tracks f n b = record { cells = λ k. refl; current = λ k. refl; keys = refl }

-- Whatever file a record is opened on, its views are those of the events that it holds.
pub open_record-Tracks :
    (loads : Bytes → Option Plain) (file : Option Bytes) (r : Record)
    → open_record loads file ≡ ok r
    → Tracks r
unfolding open_record
open_record-Tracks loads file r h =
    let (read, _, h1) = >>=-eq-ok (read_jsonl loads file) _ h in
    let (events, _, h2) = >>=-eq-ok (traverse event_from_plain read.rows) _ h1 in
    subst Tracks (ok_inj h2) (
      replay_into-Tracks events (blank_record (default [] file) read.good_bytes read.torn)
        (blank_record-Tracks (default [] file) read.good_bytes read.torn))
