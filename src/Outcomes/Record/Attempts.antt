-- ===== src/Outcomes/Record/Attempts.antt =====
-- How `append` of src/lab_commons/outcomes/record.py numbers an outcome.
use lab_commons.Commons.{
  ◌+◌, ◌≡◌, ap, ap₂, ◌∙◌, true, false, Option, none, some, List, [], ◌∷◌, ◌++◌, arith, eq_refl,
  Result, ok, length, length-append,
}
use lab_commons.Commons.Dict.{lookup}
use lab_commons.Outcomes.Plain.{Fields}
use lab_commons.Outcomes.Cell.Parts.{Cell}
use lab_commons.Outcomes.Record.Event.{Event, event_to_plain}
use lab_commons.Outcomes.Record.Jsonl.{Bytes}
use lab_commons.Outcomes.Record.Log.{
  Record, recorded, attempts_of, numbered, number_if, append, admit, admit_outcome, admit_attempt,
  is_decided, write_line,
}
use lab_commons.Outcomes.Record.Append.{current-write_line, recorded-write_line, events-write_line}
use lab_commons.Outcomes.Record.Finality.{admit-outcome}

admit_attempt-next :
    (past : List Cell) (c : Cell) → admit_attempt past (some (length past + 1)) c ≡ ok true
unfolding admit_attempt
admit_attempt-next past c = ground arith

admit_outcome-next :
    (o : Option Cell) (past : List Cell) (c : Cell)
    → is_decided o ≡ false
    → admit_outcome o past (some (length past + 1)) c ≡ ok true
unfolding admit_outcome
admit_outcome-next none past c h = admit_attempt-next past c
admit_outcome-next (some d) past c h = rw h (admit_attempt-next past c)

module _ (dumps : Fields → Result Bytes) (r : Record) (e : Event) (c : Cell)
    (hc : e.cell ≡ some c) where
  abbrev numbered_e : Event
  numbered_e = record e { attempt = some (attempts_of r e.key + 1) }

  number-next : e.attempt ≡ none → numbered r e ≡ numbered_e
  unfolding numbered
  number-next ha =
      ap (λ a. record e { attempt = a })
        (ap₂ (λ o a. number_if o a (attempts_of r e.key + 1)) hc ha)

  admit-next : is_decided (lookup e.key r.latest) ≡ false → admit r numbered_e ≡ ok true
  unfolding attempts_of
  admit-next hd =
      admit-outcome r numbered_e c hc
      ∙ admit_outcome-next (lookup e.key r.latest) (recorded r e.key) c hd

  counted :
      (text : Bytes)
      → attempts_of (write_line dumps r numbered_e text) e.key ≡ attempts_of r e.key + 1
  unfolding attempts_of
  counted text =
      ap length (recorded-write_line dumps r numbered_e text e.key ∙ rw (eq_refl e.key, hc))
      ∙ length-append (recorded r e.key) (c ∷ [])

  -- An outcome that names no attempt, of a key with no decision yet, is written as the key's next
  -- attempt, whatever its cell, and is the key's current cell from then on.
  pub append-next :
      (text : Bytes)
      → e.attempt ≡ none
      → is_decided (lookup e.key r.latest) ≡ false
      → dumps (event_to_plain (record e { attempt = some (attempts_of r e.key + 1) })) ≡ ok text
      → (t : Record) × (append dumps r e ≡ ok (true, t))
        × (t.events ≡ r.events ++ record e { attempt = some (attempts_of r e.key + 1) } ∷ [])
        × (attempts_of t e.key ≡ attempts_of r e.key + 1)
        × (lookup e.key t.latest ≡ some c)
  unfolding append
  append-next text ha hd ht = (
    write_line dumps r numbered_e text,
    rw (number-next ha) (rw (admit-next hd) (rw ht)),
    events-write_line dumps r numbered_e text,
    counted text,
    current-write_line dumps r numbered_e text e.key ∙ rw (eq_refl e.key, hc),
  )
