-- ===== src/Outcomes/Record/Finality.antt =====
-- Decided outcomes under `append` of src/lab_commons/outcomes/record.py.
use lab_commons.Commons.{
  String, ◌≡◌, refl, sym, ap, ◌∙◌, Bool, true, false, Option, none, some, arith, str_eq, eq_iff,
  if◌then◌else◌, Result, ok, err, Error, inl, inr,
}
use lab_commons.Commons.Dict.{lookup}
use lab_commons.Outcomes.Plain.{Fields}
use lab_commons.Outcomes.Status.{decided}
use lab_commons.Outcomes.Cell.Parts.{Cell, cell_eq}
use lab_commons.Outcomes.Record.Event.{Event}
use lab_commons.Outcomes.Record.Jsonl.{Bytes}
use lab_commons.Outcomes.Record.Log.{Record, recorded, numbered, append, admit, admit_outcome}
use lab_commons.Outcomes.Record.Views.{newest}
use lab_commons.Outcomes.Record.Append.{append-cases, current-write_line}

pub admit-outcome :
    (r : Record) (e : Event) (c : Cell)
    → e.cell ≡ some c
    → admit r e ≡ admit_outcome (lookup e.key r.latest) (recorded r e.key) e.attempt c
unfolding admit
admit-outcome r e c h = ground arith

pub admit-decided :
    (r : Record) (e : Event) (c d : Cell)
    → e.cell ≡ some d
    → lookup e.key r.latest ≡ some c
    → decided c.status ≡ true
    → admit r e ≡ (if cell_eq c d then ok false else err Error.finality_error)
unfolding admit_outcome
admit-decided r e c d hd hc h =
    admit-outcome r e d hd ∙ ap (λ o. admit_outcome o (recorded r e.key) e.attempt d) hc ∙ rw h

module _ (dumps : Fields → Result Bytes) where
  newest-decided :
      (r : Record) (e : Event) (k : String) (c : Cell) (b : Bool) (o : Option Cell)
      → o ≡ e.cell
      → str_eq e.key k ≡ b
      → lookup k r.latest ≡ some c
      → decided c.status ≡ true
      → admit r e ≡ ok true
      → newest b o (lookup k r.latest) ≡ some c
  newest-decided r e k c false o ho hb hc h a = ground arith
  newest-decided r e k c true none ho hb hc h a = hc
  newest-decided r e k c true (some d) ho hb hc h a =
      let same = (eq_iff e.key k).0 hb in
      let refused = admit-decided r e c d (sym ho) (ap (λ j. lookup j r.latest) same ∙ hc) h in
      absurd (two (cell_eq c d) (sym a ∙ refused))
    where
      two : (x : Bool) → Result.ok true ≡ (if x then ok false else err Error.finality_error) → ⊥
      two x q = ground arith

  append-final :
      (r t : Record) (e : Event) (b : Bool) (k : String) (c : Cell)
      → append dumps r e ≡ ok (b, t)
      → lookup k r.latest ≡ some c
      → decided c.status ≡ true
      → lookup k t.latest ≡ some c
  unfolding numbered
  append-final r t e b k c h hc hd = elim (append-cases dumps r e b t h) [
    | inl (_, same) ↦ rw same hc
    | inr (_, w) ↦ rw (w.result) (
        current-write_line dumps r (numbered r e) w.text k
        ∙ newest-decided r (numbered r e) k c (str_eq e.key k) e.cell refl refl hc hd w.admitted)
  ]

  -- Any sequence of appends that return; one that raises leaves the record as it was.
  pub data Run (r : Record) : Record → Type 0 where
    start : Run r r
    next :
        {s t : Record} {b : Bool} → Run r s → (e : Event) → append dumps s e ≡ ok (b, t) → Run r t

  -- A decision is never changed, whatever is appended after it.
  pub decision_final :
      {r t : Record} (k : String) (c : Cell)
      → Run r t
      → lookup k r.latest ≡ some c
      → decided c.status ≡ true
      → lookup k t.latest ≡ some c
  decision_final k c start hc hd = hc
  decision_final k c (next {s = s} {t = t} {b = b} run e h) hc hd =
      append-final s t e b k c h (decision_final k c run hc hd) hd
