-- ===== src/Outcomes/Samples/Recording.antt =====
-- The theorems of the record's operations, applied to the samples.
use lab_commons.Commons.{◌+◌, ◌≡◌, refl, true, false, some, [], ◌∷◌, ◌++◌, arith, ok, ok_inj, subst}
use lab_commons.Commons.Dict.{lookup, insert}
use lab_commons.Outcomes.Status.{decided}
use lab_commons.Outcomes.Record.Event.{event_to_plain, event_eq}
use lab_commons.Outcomes.Record.EventRoundTrip.{EventIsSound}
use lab_commons.Outcomes.Record.Jsonl.{Bytes}
use lab_commons.Outcomes.Record.Lines.{IsLine}
use lab_commons.Outcomes.Record.Log.{Record, numbered, append, attempts_of, write_line}
use lab_commons.Outcomes.Record.Views.{Tracks, blank_record-Tracks, append-Tracks}
use lab_commons.Outcomes.Record.Finality.{Run, decision_final}
use lab_commons.Outcomes.Record.Attempts.{append-next}
use lab_commons.Outcomes.Record.Durable.{OnDisk, append-OnDisk}
use lab_commons.Outcomes.Samples.{
  timed_out, refused_design, submission, outcome_of, spell, no_file, timed_out-IsSound,
  refusal-IsDeclared,
}

-- The record after an outcome of `m1`, and after a submission, a failure and a refusal.
abbrev after_failure : Record
after_failure = write_line spell no_file (numbered no_file (outcome_of timed_out)) (b's' ∷ [])

abbrev after_refusal : Record
after_refusal =
    write_line spell after_failure (numbered after_failure (outcome_of refused_design)) (b's' ∷ [])

failure_written : append spell no_file (outcome_of timed_out) ≡ ok (true, after_failure)
unfolding append lookup
failure_written = refl

refusal_written : append spell after_failure (outcome_of refused_design) ≡ ok (true, after_refusal)
unfolding append lookup insert decided
refusal_written = refl

submission_written :
    append spell after_refusal submission
    ≡ ok (true, write_line spell after_refusal submission (b's' ∷ []))
unfolding append event_eq lookup insert
submission_written = refl

refusal_current : lookup "m1" after_refusal.latest ≡ some refused_design
unfolding append lookup insert
refusal_current = refl

decision_final_example :
    lookup "m1" (write_line spell after_refusal submission (b's' ∷ [])).latest ≡ some refused_design
unfolding decided
decision_final_example =
    decision_final spell "m1" refused_design (Run.next Run.start submission submission_written)
      refusal_current refl

append-Tracks_example : Tracks after_failure
append-Tracks_example =
    append-Tracks spell no_file (outcome_of timed_out) (true, after_failure)
      (blank_record-Tracks [] 0 false) failure_written

append-next_example :
    (t : Record) × (append spell no_file (outcome_of timed_out) ≡ ok (true, t))
    × (t.events
        ≡ []
          ++ record (outcome_of timed_out) { attempt = some (attempts_of no_file "m1" + 1) } ∷ [])
    × (attempts_of t "m1" ≡ attempts_of no_file "m1" + 1)
    × (lookup "m1" t.latest ≡ some timed_out)
unfolding lookup
append-next_example =
    append-next spell no_file (outcome_of timed_out) timed_out refl (b's' ∷ []) refl refl refl

nothing-OnDisk : OnDisk [] [] no_file
nothing-OnDisk = record { layout = refl; good = refl; broken = refl; complete = tt; open_end = tt }

append-OnDisk_example :
    (text : Bytes) × (spell (event_to_plain (numbered no_file (outcome_of timed_out))) ≡ ok text)
    × OnDisk (text ∷ []) [] after_failure
append-OnDisk_example =
    append-OnDisk spell (λ f text h. subst IsLine (ok_inj h) (refl, tt)) [] [] no_file after_failure
      (outcome_of timed_out) nothing-OnDisk failure_written

numbered_failure-EventIsSound : EventIsSound (numbered no_file (outcome_of timed_out))
unfolding lookup numbered
numbered_failure-EventIsSound = record {
  kinded = refl;
  counted = (refl, omega arith);
  judged = refl;
  celled = timed_out-IsSound;
  declared = refusal-IsDeclared;
}
