-- ===== src/Outcomes/Samples.antt =====
-- Sample cells, events and records, and tests of the vocabulary of src/lab_commons/outcomes on them.
mod Vocabulary
mod Recording
mod Reading
mod Reopening
use lab_commons.Commons.{
  ℕ, String, ◌≡◌, refl, Bool, true, false, Option, none, some, List, [], ◌∷◌, Result, ok, err,
  Error, ◌^◌,
}
use lab_commons.Commons.Int.{ℤ, pos, negsuc}
use lab_commons.Outcomes.Status.{ok_status, rejected, timeout, Evidence, status_eq, value}
use lab_commons.Outcomes.Plain.{
  Plain, num, str, obj, Fields, end, field, Number, int, float, nan, plain_eq, num_eq, nonneg,
}
use lab_commons.Outcomes.Cell.Parts.{Cell, Reason, Cost, cell_eq, make_reason, is_token}
use lab_commons.Outcomes.Expectation.{Expectation, says_something, expectable}
use lab_commons.Outcomes.Expectation.RoundTrip.{IsDeclared}
use lab_commons.Outcomes.Cell.Invariants.{IsSound}
use lab_commons.Outcomes.Record.Event.{Event, outcome_kind, submitted_kind}
use lab_commons.Outcomes.Record.Jsonl.{Bytes}
use lab_commons.Outcomes.Record.Log.{Record, blank_record}

-- A solver that gave up, with what it cost.
abbrev pub timed_out : Cell
timed_out = record {
  status = timeout;
  values = [];
  reason = some (record { kind = "wall_clock"; text = "over 60 s" });
  evidence = Evidence.observed;
  cost = some (record { wall_s = some (int (pos 60)); cpu_s = none; peak_memory_bytes = none });
}

-- A torque of 0.5, validated.
abbrev pub solved : Cell
solved = record {
  status = ok_status;
  values = ("torque_nm", float (pos (2 ^ 1073))) ∷ [];
  reason = none;
  evidence = Evidence.validated;
  cost = none;
}

-- The design does not work.
abbrev pub refused_design : Cell
refused_design = record {
  status = rejected;
  values = [];
  reason = some (record { kind = "demagnetised"; text = "" });
  evidence = Evidence.observed;
  cost = none;
}

abbrev pub refusal : Expectation
refusal = record { status = rejected; why = "known to demagnetise" }

abbrev pub submission : Event
submission = record {
  kind = submitted_kind;
  key = "m1";
  cell = none;
  payload = field "speed" (num (int (pos 3000))) end;
  attempt = none;
  expectation = none;
}

abbrev pub outcome_of : Cell → Event
outcome_of c = record {
  kind = outcome_kind;
  key = "m1";
  cell = some c;
  payload = end;
  attempt = none;
  expectation = some refusal;
}

-- The text of a line, and what a text spells: lines are told apart by one letter.
abbrev pub spell : Fields → Result Bytes
spell line = ok (b's' ∷ [])

abbrev pub spelled_row : Fields
spelled_row =
    field "schema" (num (int (pos 3))) (field "kind" (str "submitted") (field "key" (str "m1") end))

abbrev pub read_text : Bytes → Option Plain
read_text (c ∷ []) = some (obj spelled_row)
read_text _ = none

abbrev pub no_file : Record
no_file = blank_record [] 0 false

pub timed_out-IsSound : IsSound timed_out
unfolding is_token nonneg
timed_out-IsSound = record {
  carries = refl;
  reasoned = refl;
  real = tt;
  tokened = refl;
  costed = (refl, refl, refl);
}

pub refusal-IsDeclared : IsDeclared refusal
unfolding says_something expectable
refusal-IsDeclared = record { concludes = refl; argued = refl }

-- Two of the tests of the source, and a float against an int.
blank_says_nothing : says_something " \t" ≡ false
unfolding says_something
blank_says_nothing = refl

capital_is_no_token : make_reason "Wall" "" ≡ err Error.value_error
unfolding make_reason is_token
capital_is_no_token = refl

float_equals_int : plain_eq (num (float (pos (2 ^ 1075)))) (num (int (pos 2))) ≡ true
unfolding plain_eq num_eq
float_equals_int = refl

nan_equals_nothing : plain_eq (num nan) (num nan) ≡ false
unfolding plain_eq num_eq
nan_equals_nothing = refl

costs_differ : cell_eq timed_out refused_design ≡ false
unfolding cell_eq status_eq value
costs_differ = refl
