-- ===== src/Outcomes/Samples/Reading.antt =====
-- The theorems of the record's file, applied to the samples.
use lab_commons.Commons.{◌≡◌, refl, true, none, some, [], ◌∷◌, ok}
use lab_commons.Outcomes.Plain.{end, get_field, num_eq}
use lab_commons.Outcomes.Record.Event.{Event, make_event, event_to_plain, event_from_plain}
use lab_commons.Outcomes.Record.EventRoundTrip.{EventIsSound, from-to_event}
use lab_commons.Outcomes.Record.Log.{Record, open_record, apply, blank_record}
use lab_commons.Outcomes.Record.Views.{Tracks, open_record-Tracks}
use lab_commons.Outcomes.Samples.{submission, read_text}

submission-EventIsSound : EventIsSound submission
submission-EventIsSound = record {
  kinded = refl;
  counted = tt;
  judged = refl;
  celled = tt;
  declared = tt;
}

from-to_event_example : event_from_plain (event_to_plain submission) ≡ ok submission
from-to_event_example = from-to_event submission submission-EventIsSound

abbrev told : Event
told = record {
  kind = "submitted";
  key = "m1";
  cell = none;
  payload = end;
  attempt = none;
  expectation = none;
}

abbrev opened : Record
opened = apply (record (blank_record (b's' ∷ b'\n' ∷ b'x' ∷ []) 2 true) { events = told ∷ [] }) told

file_opens : open_record read_text (some (b's' ∷ b'\n' ∷ b'x' ∷ [])) ≡ ok opened
unfolding open_record get_field num_eq make_event
file_opens = refl

open_record-Tracks_example : Tracks opened
open_record-Tracks_example =
    open_record-Tracks read_text (some (b's' ∷ b'\n' ∷ b'x' ∷ [])) opened file_opens
