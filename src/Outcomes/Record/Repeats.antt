-- ===== src/Outcomes/Record/Repeats.antt =====
-- An outcome appended twice, src/lab_commons/outcomes/record.py.
use lab_commons.Commons.{
  ℕ, zero, suc, ◌+◌, ◌≡◌, refl, sym, ap, ap₂, ◌∙◌, subst, Bool, true, false, Option, none, some,
  List, [], ◌∷◌, ◌++◌, arith, eq_refl, if◌then◌else◌, Result, ok, err, Error, inl, inr, length,
  length-append, get_elem?, Bool-cases,
}
use lab_commons.Commons.Dict.{lookup}
use lab_commons.Outcomes.Plain.{Fields}
use lab_commons.Outcomes.Status.{decided}
use lab_commons.Outcomes.Cell.Parts.{Cell, cell_eq}
use lab_commons.Outcomes.Cell.Invariants.{IsSound}
use lab_commons.Outcomes.Cell.Equality.{cell_eq_refl}
use lab_commons.Outcomes.Record.Event.{Event}
use lab_commons.Outcomes.Record.EventRoundTrip.{EventIsSound, AttemptIsSound, CellIsSound}
use lab_commons.Outcomes.Record.Jsonl.{Bytes}
use lab_commons.Outcomes.Record.Log.{
  Record, recorded, attempts_of, numbered, number_if, append, admit, admit_outcome, admit_attempt,
}
use lab_commons.Outcomes.Record.Append.{
  Written, append-cases, current-write_line, recorded-write_line,
}
use lab_commons.Outcomes.Record.Finality.{admit-outcome}

get_elem?-snoc : (past : List Cell) (c : Cell) → get_elem? (past ++ c ∷ []) (length past) ≡ some c
get_elem?-snoc [] c = refl
get_elem?-snoc (d ∷ past) c = get_elem?-snoc past c

-- The attempt just recorded, with the same cell, is a repeat.
admit_attempt-again :
    (past : List Cell) (c : Cell)
    → cell_eq c c ≡ true
    → admit_attempt (past ++ c ∷ []) (some (suc (length past))) c ≡ ok false
unfolding admit_attempt
admit_attempt-again past c h = ground (arith, length-append past (c ∷ []), get_elem?-snoc past c)

-- An attempt that is admitted is the next one.
admit_attempt-true :
    (past : List Cell) (m : ℕ) (c : Cell)
    → admit_attempt past (some (suc m)) c ≡ ok true
    → suc m ≡ length past + 1
unfolding admit_attempt
admit_attempt-true past m c h = ground arith

admit_outcome-true :
    (o : Option Cell) (past : List Cell) (m : ℕ) (c : Cell)
    → admit_outcome o past (some (suc m)) c ≡ ok true
    → suc m ≡ length past + 1
unfolding admit_outcome
admit_outcome-true none past m c h = admit_attempt-true past m c h
admit_outcome-true (some d) past m c h = elim (Bool-cases (decided d.status)) [
  | inl final ↦ absurd (never (cell_eq d c) (rw final at h))
  | inr open_yet ↦ admit_attempt-true past m c (rw open_yet at h)
]
  where
    never : (b : Bool) → (if b then ok false else err Error.finality_error) ≡ Result.ok true → ⊥
    never b q = ground arith

admit_outcome-again :
    (past : List Cell) (m : ℕ) (c : Cell)
    → cell_eq c c ≡ true
    → suc m ≡ length past + 1
    → admit_outcome (some c) (past ++ c ∷ []) (some (suc m)) c ≡ ok false
unfolding admit_outcome
admit_outcome-again past m c h e = elim (Bool-cases (decided c.status)) [
  | inl final ↦ rw (final, h)
  | inr open_yet ↦
      let at_end : m ≡ length past = omega arith in
      rw (open_yet, at_end) (admit_attempt-again past c h)
]

number_if_sound :
    (o : Option Cell) (a : Option ℕ) (n : ℕ) (c : Cell)
    → o ≡ some c
    → AttemptIsSound o a
    → (m : ℕ) × (number_if o a (n + 1) ≡ some (suc m))
number_if_sound none a n c h s = cc
number_if_sound (some d) none n c h s = (n, ap some (omega arith))
number_if_sound (some d) (some zero) n c h s = absurd (omega arith)
number_if_sound (some d) (some (suc m)) n c h s = (m, refl)

celled : {c : Cell} (o : Option Cell) → o ≡ some c → CellIsSound o → IsSound c
celled {c} o h s = subst CellIsSound h s

module _ (dumps : Fields → Result Bytes) (r t : Record) (e : Event) (c : Cell)
    (hc : e.cell ≡ some c) (sound : EventIsSound e) (h : append dumps r e ≡ ok (true, t)) where
  again_admitted :
      (m : ℕ)
      → (numbered r e).attempt ≡ some (suc m)
      → Written dumps r e t
      → admit t (numbered r e) ≡ ok false
  unfolding numbered
  again_admitted m hm w =
      let e' = numbered r e in
      let cur : lookup e.key t.latest ≡ some c =
        ap (λ (x : Record). lookup e.key x.latest) w.result
        ∙ current-write_line dumps r e' w.text e.key
        ∙ rw (eq_refl e.key, hc) in
      let past : recorded t e.key ≡ recorded r e.key ++ c ∷ [] =
        ap (λ (x : Record). recorded x e.key) w.result
        ∙ recorded-write_line dumps r e' w.text e.key
        ∙ rw (eq_refl e.key, hc) in
      let before : admit_outcome (lookup e.key r.latest) (recorded r e.key) (some (suc m)) c
          ≡ ok true =
        ap (λ a. admit_outcome (lookup e.key r.latest) (recorded r e.key) a c) (sym hm)
        ∙ sym (admit-outcome r e' c hc)
        ∙ w.admitted in
      admit-outcome t e' c hc
      ∙ ap₂ (λ o l. admit_outcome o l e'.attempt c) cur past
      ∙ ap (λ a. admit_outcome (some c) (recorded r e.key ++ c ∷ []) a c) hm
      ∙ admit_outcome-again (recorded r e.key) m c (cell_eq_refl c (celled e.cell hc sound.celled))
          (admit_outcome-true (lookup e.key r.latest) (recorded r e.key) m c before)

  attempted : (m : ℕ) × ((numbered r e).attempt ≡ some (suc m))
  unfolding numbered
  attempted = number_if_sound e.cell e.attempt (attempts_of r e.key) c hc sound.counted

  numbered_twice : numbered t (numbered r e) ≡ numbered r e
  unfolding numbered
  numbered_twice =
      let (m, hm) = attempted in
      ap (λ a. record e { attempt = a })
        (ap₂ (λ o a. number_if o a (attempts_of t e.key + 1)) hc hm ∙ sym hm)

  -- The event that was written, appended again with its attempt, is a repeat: nothing is written.
  pub append-again : append dumps t (numbered r e) ≡ ok (false, t)
  unfolding append
  append-again = elim (append-cases dumps r e true t h) [
    | inl (no_way, _) ↦ cc
    | inr (_, w) ↦ let (m, hm) = attempted in rw numbered_twice (rw (again_admitted m hm w))
  ]
