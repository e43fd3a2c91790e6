-- ===== src/Outcomes/Record/Append.antt =====
-- The cases of `append` of src/lab_commons/outcomes/record.py, and what a written line changes: lemmas.
use lab_commons.Commons.{
  String, ◌≡◌, refl, sym, ap, ◌∙◌, Bool, true, false, [], ◌∷◌, ◌++◌, str_eq, Result, ok, >>=-eq-ok,
  ok_inj, ◌⊎◌, inl, inr,
}
use lab_commons.Commons.Dict.{lookup}
use lab_commons.Outcomes.Plain.{Fields}
use lab_commons.Outcomes.Record.Event.{Event, event_to_plain}
use lab_commons.Outcomes.Record.Jsonl.{Bytes}
use lab_commons.Outcomes.Record.Log.{
  Record, recorded, numbered, write_line, write_if, append, admit,
}
use lab_commons.Outcomes.Record.Views.{
  newest, cell_if, current-apply_cell, recorded-apply_cell, events-apply_cell,
}

module _ (dumps : Fields → Result Bytes) where
  write_if-cases :
      (b : Bool) (r : Record) (e : Event) (out : Bool × Record)
      → write_if dumps b r e ≡ ok out
      → (b ≡ false) × (out ≡ (false, r))
        ⊎ (b ≡ true)
          × ((text : Bytes) × (dumps (event_to_plain e) ≡ ok text)
              × (out ≡ (true, write_line dumps r e text)))
  write_if-cases false r e out h = inl (refl, sym (ok_inj h))
  write_if-cases true r e out h =
      let (text, d, h1) = >>=-eq-ok (dumps (event_to_plain e)) _ h in
      inr (refl, (text, d, sym (ok_inj h1)))

  -- What an `append` that wrote did.
  pub record Written (r : Record) (event : Event) (t : Record) : Type 0 where
    pub admitted : admit r (numbered r event) ≡ ok true
    pub text : Bytes
    pub spelled : dumps (event_to_plain (numbered r event)) ≡ ok text
    pub result : t ≡ write_line dumps r (numbered r event) text

  pub append-cases :
      (r : Record) (event : Event) (b : Bool) (t : Record)
      → append dumps r event ≡ ok (b, t)
      → (b ≡ false) × (t ≡ r) ⊎ (b ≡ true) × Written r event t
  unfolding append
  append-cases r event b t h =
      let (fresh, a, h1) = >>=-eq-ok (admit r (numbered r event)) _ h in
      elim (write_if-cases fresh r (numbered r event) (b, t) h1) [
        | inl (_, e) ↦ inl (ap (λ o. o.0) e, ap (λ o. o.1) e)
        | inr (yes_fresh, (text, d, e)) ↦ inr (
          ap (λ o. o.0) e,
          record {
            admitted = a ∙ ap ok yes_fresh;
            text = text;
            spelled = d;
            result = ap (λ o. o.1) e;
          },
        )
      ]

  pub current-write_line :
      (r : Record) (e : Event) (text : Bytes) (k : String)
      → lookup k (write_line dumps r e text).latest
        ≡ newest (str_eq e.key k) e.cell (lookup k r.latest)
  unfolding write_line
  current-write_line r e text k = current-apply_cell _ e.key e.cell k

  pub recorded-write_line :
      (r : Record) (e : Event) (text : Bytes) (k : String)
      → recorded (write_line dumps r e text) k ≡ recorded r k ++ cell_if (str_eq e.key k) e.cell []
  unfolding write_line recorded
  recorded-write_line r e text k = recorded-apply_cell _ e.key e.cell k

  pub events-write_line :
      (r : Record) (e : Event) (text : Bytes)
      → (write_line dumps r e text).events ≡ r.events ++ e ∷ []
  unfolding write_line
  events-write_line r e text = events-apply_cell _ e.key e.cell
