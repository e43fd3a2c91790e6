-- ===== src/Outcomes/Record/Log.antt =====
-- src/lab_commons/outcomes/record.py: `Record`. The file is its bytes; `dumps` stands for the text
-- of `json.dumps(..., sort_keys=True, allow_nan=False)` of a line, which refuses a number that is
-- not finite, and `loads` for `json.loads`. Every check and every refusal comes before the first
-- change of the record, so an operation that raises leaves it as it was: `err` carries no record.
-- Failures of the file system itself are not modelled.
use lab_commons.Commons.{
  ℕ, zero, suc, ◌+◌, ◌-◌, String, Bool, true, false, not, Option, none, some, List, [], ◌∷◌, ◌++◌,
  leb, ◌==◌, if◌then◌else◌, Result, ok, err, Error, ◌>>=◌, traverse, length, get_elem?, take, any,
  keep,
}
use lab_commons.Commons.Int.{ℤ}
use lab_commons.Commons.Dict.{Dict, lookup, insert, elem, default}
use lab_commons.Outcomes.Plain.{Plain, Fields}
use lab_commons.Outcomes.Status.{Status, decided, status_eq, value}
use lab_commons.Outcomes.Expectation.{Expectation}
use lab_commons.Outcomes.Cell.Parts.{Cell, cell_eq, pending_cell}
use lab_commons.Outcomes.Record.Event.{
  Event, make_event, event_eq, event_to_plain, event_from_plain, outcome_kind, submitted_kind,
}
use lab_commons.Outcomes.Record.Jsonl.{Bytes, newline, read_jsonl}

pub record Record : Type 0 where
  pub file : Bytes
  pub events : List Event
  pub good_bytes : ℕ
  pub torn : Bool
  pub submitted : List String
  pub latest : Dict Cell
  pub attempts : Dict (List Cell)

-- `self._attempts.get(key, [])`
unfoldable pub recorded : Record → String → List Cell
recorded r k = default [] (lookup k r.attempts)

-- `record.attempts(identity)`
unfoldable pub attempts_of : Record → String → ℕ
unfolding recorded
attempts_of r k = length (recorded r k)

abbrev pub number_if : Option Cell → Option ℕ → ℕ → Option ℕ
number_if none attempt n = attempt
number_if (some c) none n = some n
number_if (some c) (some m) n = some m

-- `record._numbered(event)`: an outcome without an attempt gets the next one of its key.
unfoldable pub numbered : Record → Event → Event
unfolding attempts_of
numbered r e = record e { attempt = number_if e.cell e.attempt (attempts_of r e.key + 1) }

-- `self._submitted.setdefault(key)`: a dictionary used as an ordered set.
unfoldable pub note_key : String → List String → List String
note_key k ks = if elem k ks then ks else ks ++ k ∷ []

-- `record._apply(event)`, of the event's key and cell.
unfoldable pub apply_cell : Record → String → Option Cell → Record
unfolding note_key recorded
apply_cell r k none = record r { submitted = note_key k r.submitted }
apply_cell r k (some c) = record r {
  submitted = note_key k r.submitted;
  latest = insert k c r.latest;
  attempts = insert k (recorded r k ++ c ∷ []) r.attempts;
}

unfoldable pub apply : Record → Event → Record
unfolding apply_cell
apply r e = apply_cell r e.key e.cell

-- `event.attempt or len(recorded) + 1`
abbrev attempt_or : Option ℕ → ℕ → ℕ
attempt_or none n = n
attempt_or (some zero) n = n
attempt_or (some (suc m)) n = suc m

-- `cell == o`, for an optional cell.
abbrev same_cell : Cell → Option Cell → Bool
same_cell c none = false
same_cell c (some d) = cell_eq d c

-- The part of `_admit` behind the finality check: the attempt against those recorded.
unfoldable pub admit_attempt : List Cell → Option ℕ → Cell → Result Bool
admit_attempt past attempt c =
    let n = attempt_or attempt (length past + 1) in
    if leb n (length past)
    then (if same_cell c (get_elem? past (n - 1)) then ok false else err Error.value_error)
    else if n == length past + 1
    then ok true
    else err Error.value_error

-- An outcome of a key: the finality check, then the attempt.
unfoldable pub admit_outcome : Option Cell → List Cell → Option ℕ → Cell → Result Bool
unfolding admit_attempt decided
admit_outcome none past attempt c = admit_attempt past attempt c
admit_outcome (some current) past attempt c =
    if decided current.status
    then (if cell_eq current c then ok false else err Error.finality_error)
    else admit_attempt past attempt c

-- `record._admit(event)`
unfoldable pub admit : Record → Event → Result Bool
unfolding admit_outcome recorded
admit r e = elim e.cell [
  | none ↦ ok (not (any (λ f. event_eq f e) r.events))
  | some c ↦ admit_outcome (lookup e.key r.latest) (recorded r e.key) e.attempt c
]

module _ (dumps : Fields → Result Bytes) where
  -- The write of `append`, with the cut of a torn tail before the first one.
  unfoldable pub write_line : Record → Event → Bytes → Record
  unfolding apply
  write_line r e text =
      let line = text ++ newline ∷ [] in
      let kept : Bytes = if r.torn then take r.good_bytes r.file else r.file in
      apply
        (record r {
          file = kept ++ line;
          torn = false;
          good_bytes = r.good_bytes + length line;
          events = r.events ++ e ∷ [];
        })
        e

  abbrev pub write_if : Bool → Record → Event → Result (Bool × Record)
  write_if false r e = ok (false, r)
  write_if true r e = do text ← dumps (event_to_plain e); ok (true, write_line r e text)

  -- `record.append(event)`: whether it was written, and the record after it.
  unfoldable pub append : Record → Event → Result (Bool × Record)
  unfolding write_line admit numbered
  append r event = do let e = numbered r event; fresh ← admit r e; write_if fresh r e

  -- `record.submit(identity, data)`
  unfoldable pub submit : Record → String → Fields → Result (Bool × Record)
  unfolding append
  submit r k payload = do e ← make_event submitted_kind k none payload none none; append r e

  -- `record.outcome(identity, cell, data, attempt, expectation)`
  unfoldable pub outcome :
      Record → String → Cell → Fields → Option ℤ → Option Expectation → Result (Bool × Record)
  unfolding append
  outcome r k c payload attempt expectation = do
    e ← make_event outcome_kind k (some c) payload attempt expectation
    append r e

-- The loop of `__init__` over the events that were read.
unfoldable pub replay_into : Record → List Event → Record
unfolding numbered apply
replay_into r [] = r
replay_into r (event ∷ rest) =
    let e = numbered r event in
    replay_into (apply (record r { events = r.events ++ e ∷ [] }) e) rest

-- A record with nothing recorded yet, over what was read of its file.
abbrev pub blank_record : Bytes → ℕ → Bool → Record
blank_record file good_bytes torn = record {
  file = file;
  events = [];
  good_bytes = good_bytes;
  torn = torn;
  submitted = [];
  latest = [];
  attempts = [];
}

-- `Record(path)`: an absent file is `none`, and reads as an empty one.
unfoldable pub open_record : (Bytes → Option Plain) → Option Bytes → Result Record
unfolding replay_into read_jsonl event_from_plain
open_record loads file = do
  read ← read_jsonl loads file
  events ← traverse event_from_plain read.rows
  ok (replay_into (blank_record (default [] file) read.good_bytes read.torn) events)

-- `record.decided()`
unfoldable pub decided_cells : Record → Dict Cell
decided_cells r = keep (λ i. decided i.1.status) r.latest

abbrev pub is_decided : Option Cell → Bool
is_decided none = false
is_decided (some c) = decided c.status

-- `record.pending()`
unfoldable pub pending_keys : Record → List String
unfolding decided
pending_keys r = keep (λ k. not (is_decided (lookup k r.latest))) r.submitted

-- `record.by_status(status)`
unfoldable pub by_status : Record → Status → List String
unfolding status_eq value
by_status r s =
    keep (λ k. status_eq (default pending_cell (lookup k r.latest)).status s) r.submitted
