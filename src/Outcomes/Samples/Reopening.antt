-- ===== src/Outcomes/Samples/Reopening.antt =====
-- A record of two events, opened again on its file.
use lab_commons.Commons.{
  arith, ◌≡◌, refl, subst, Bool, true, false, Option, none, some, [], ◌∷◌, ◌==◌, if◌then◌else◌,
  Result, ok, err, Error, ok_inj,
}
use lab_commons.Commons.Dict.{lookup, insert}
use lab_commons.Outcomes.Plain.{Plain, obj, Fields, get_field, plain_eq, num_eq}
use lab_commons.Outcomes.KeyOrder.{sort_plain, sort_fields}
use lab_commons.Outcomes.Cell.Stored.{to_fields, cell_to_plain}
use lab_commons.Outcomes.Status.{value, token}
use lab_commons.Outcomes.Expectation.{expectation_to_plain}
use lab_commons.Outcomes.Record.Event.{Event, event_to_plain, event_from_plain}
use lab_commons.Outcomes.Record.EventRoundTrip.{EventIsSound}
use lab_commons.Outcomes.Record.SortedEvent.{EventHasOrder, from-sorted_event}
use lab_commons.Outcomes.Record.Jsonl.{Bytes}
use lab_commons.Outcomes.Record.Lines.{IsLine}
use lab_commons.Outcomes.Record.Log.{Record, open_record, numbered, append, replay_into, write_line}
use lab_commons.Outcomes.Record.Reopen.{Reopens, append-Reopens}
use lab_commons.Outcomes.Samples.{
  timed_out, submission, outcome_of, no_file, timed_out-IsSound, refusal-IsDeclared,
}

abbrev failure : Event
failure = numbered no_file (outcome_of timed_out)

abbrev line_of : Event → Fields
line_of e = sort_fields (event_to_plain e)

-- One letter for each of two objects, with their keys in any order; no other object has a text.
abbrev two_texts : Fields → Result Bytes
two_texts line =
    if plain_eq (obj line) (obj (event_to_plain submission))
    then ok (b'a' ∷ [])
    else if plain_eq (obj line) (obj (event_to_plain failure))
    then ok (b'b' ∷ [])
    else err Error.value_error

-- What a text spells: one of the two objects, its keys in order.
abbrev spelled : Bytes → Option Plain
spelled (c ∷ []) =
    if c == b'a'
    then some (obj (line_of submission))
    else if c == b'b'
    then some (obj (line_of failure))
    else none
spelled _ = none

text-IsLine : (f : Fields) (text : Bytes) → two_texts f ≡ ok text → IsLine text
text-IsLine f text h =
    either (plain_eq (obj f) (obj (event_to_plain submission)))
      (plain_eq (obj f) (obj (event_to_plain failure))) h
  where
    either :
        (s t : Bool)
        → (if s then ok (b'a' ∷ []) else if t then ok (b'b' ∷ []) else err Error.value_error)
          ≡ ok text
        → IsLine text
    either true t e = subst IsLine (ok_inj e) (refl, tt)
    either false true e = subst IsLine (ok_inj e) (refl, tt)
    either false false e = cc

-- The record after the submission, and after the failure.
abbrev submitted : Record
submitted = write_line two_texts no_file submission (b'a' ∷ [])

abbrev failed : Record
failed = write_line two_texts submitted failure (b'b' ∷ [])

failure_written : append two_texts submitted (outcome_of timed_out) ≡ ok (true, failed)
unfolding append lookup insert plain_eq num_eq event_to_plain get_field cell_to_plain value token
    expectation_to_plain
failure_written = refl

failure-EventIsSound : EventIsSound (numbered submitted (outcome_of timed_out))
unfolding lookup numbered
failure-EventIsSound = record {
  kinded = refl;
  counted = (refl, omega arith);
  judged = refl;
  celled = timed_out-IsSound;
  declared = refusal-IsDeclared;
}

failure-EventHasOrder : EventHasOrder (numbered submitted (outcome_of timed_out))
unfolding lookup numbered to_fields sort_plain
failure-EventHasOrder = record { cell_order = refl; data_order = refl }

submission_read : event_from_plain (line_of submission) ≡ ok submission
unfolding sort_plain
submission_read =
    from-sorted_event submission
      (record { kinded = refl; counted = tt; judged = refl; celled = tt; declared = tt })
      (record { cell_order = tt; data_order = refl })

submitted-Reopens : Reopens spelled ((b'a' ∷ []) ∷ []) [] submitted
unfolding replay_into append
submitted-Reopens = record {
  on_disk = record {
    layout = refl;
    good = refl;
    broken = refl;
    complete = ((refl, tt), tt);
    open_end = tt;
  };
  rows = line_of submission ∷ [];
  told = submission ∷ [];
  spelled = refl;
  meant = rw submission_read refl;
  replayed = refl;
}

failure_read :
    (text : Bytes)
    → two_texts (event_to_plain (numbered submitted (outcome_of timed_out))) ≡ ok text
    → spelled text
      ≡ some (obj (sort_fields (event_to_plain (numbered submitted (outcome_of timed_out)))))
unfolding lookup numbered plain_eq num_eq event_to_plain get_field cell_to_plain value token
    expectation_to_plain write_line
failure_read text h = subst (λ t. spelled t ≡ some (obj (line_of failure))) (ok_inj h) refl

append-Reopens_example :
    ((text : Bytes) × Reopens spelled ((b'a' ∷ []) ∷ text ∷ []) [] failed)
    × (open_record spelled (some failed.file) ≡ ok failed)
append-Reopens_example =
    append-Reopens two_texts spelled text-IsLine ((b'a' ∷ []) ∷ []) [] submitted failed
      (outcome_of timed_out) failure-EventIsSound failure-EventHasOrder failure_read
      submitted-Reopens failure_written

from-sorted_event_example :
    event_from_plain (line_of (numbered submitted (outcome_of timed_out)))
    ≡ ok (numbered submitted (outcome_of timed_out))
from-sorted_event_example =
    from-sorted_event (numbered submitted (outcome_of timed_out)) failure-EventIsSound
      failure-EventHasOrder
