-- ===== src/Outcomes/Record/EventRoundTrip.antt =====
-- `Event.to_plain` and `Event.from_plain` of src/lab_commons/outcomes/record.py, one after the other.
use lab_commons.Commons.{
  ℕ, ◌≤◌, String, ◌≡◌, refl, ap, ◌∙◌, true, not, ◌||◌, Option, none, some, arith, ge→ltb, ok,
  optional,
}
use lab_commons.Commons.Int.{ℤ, pos}
use lab_commons.Outcomes.Plain.{Plain, num, obj, Fields, end, int, num_eq, get_field}
use lab_commons.Outcomes.Cell.Parts.{Cell, is_some}
use lab_commons.Outcomes.Cell.Stored.{cell_to_plain}
use lab_commons.Outcomes.Cell.Invariants.{IsSound}
use lab_commons.Outcomes.Cell.RoundTrip.{from-to_plain}
use lab_commons.Outcomes.Expectation.{Expectation, expectation_to_plain}
use lab_commons.Outcomes.Expectation.RoundTrip.{IsDeclared, from-to_expectation}
use lab_commons.Outcomes.Record.Event.{
  Event, make_event, is_outcome, same_bool, attempt_from, event_to_plain, event_of_current,
  event_from_plain, cell_of, expectation_of, integer_of, data_of, present,
}

abbrev pub CellIsSound : Option Cell → Type 0
CellIsSound none = Unit
CellIsSound (some c) = IsSound c

abbrev pub ExpectationIsSound : Option Expectation → Type 0
ExpectationIsSound none = Unit
ExpectationIsSound (some x) = IsDeclared x

abbrev pub AttemptIsSound : Option Cell → Option ℕ → Type 0
AttemptIsSound c none = Unit
AttemptIsSound c (some n) = (is_some c ≡ true) × (1 ≤ n)

-- What `Event(...)` checks, of the event and of its parts.
pub record EventIsSound (e : Event) : Type 0 where
  pub kinded : same_bool (is_outcome e.kind) (is_some e.cell) ≡ true
  pub counted : AttemptIsSound e.cell e.attempt
  pub judged : (not (is_some e.expectation) || is_some e.cell) ≡ true
  pub celled : CellIsSound e.cell
  pub declared : ExpectationIsSound e.expectation

abbrev pub cell_plain : Option Cell → Option Plain
cell_plain none = none
cell_plain (some c) = some (obj (cell_to_plain c))

abbrev pub attempt_plain : Option ℕ → Option Plain
attempt_plain none = none
attempt_plain (some n) = some (num (int (pos n)))

abbrev pub expectation_plain : Option Expectation → Option Plain
expectation_plain none = none
expectation_plain (some x) = some (obj (expectation_to_plain x))

module _ (kind key : String) where
  abbrev event_of : Option Cell → Fields → Option ℕ → Option Expectation → Event
  event_of c d n x = record {
    kind = kind;
    key = key;
    cell = c;
    payload = d;
    attempt = n;
    expectation = x;
  }

  pub get-cell :
      (c : Option Cell) (d : Fields) (n : Option ℕ) (x : Option Expectation)
      → get_field "cell" (event_to_plain (event_of c d n x)) ≡ cell_plain c
  unfolding event_to_plain get_field
  get-cell (some c) d n x = refl
  get-cell none end none none = refl
  get-cell none d n x = ground arith

  pub get-attempt :
      (c : Option Cell) (d : Fields) (n : Option ℕ) (x : Option Expectation)
      → get_field "attempt" (event_to_plain (event_of c d n x)) ≡ attempt_plain n
  unfolding event_to_plain get_field
  get-attempt none d (some n) x = refl
  get-attempt (some c) d (some n) x = refl
  get-attempt none end none none = refl
  get-attempt c d n x = ground arith

  pub get-expectation :
      (c : Option Cell) (d : Fields) (n : Option ℕ) (x : Option Expectation)
      → get_field "expectation" (event_to_plain (event_of c d n x)) ≡ expectation_plain x
  unfolding event_to_plain get_field
  get-expectation none end none none = refl
  get-expectation c d n x = ground arith

  get-data :
      (c : Option Cell) (d : Fields) (n : Option ℕ) (x : Option Expectation)
      → data_of (get_field "data" (event_to_plain (event_of c d n x))) ≡ ok d
  unfolding event_to_plain get_field
  get-data none end none none = refl
  get-data c d n x = ground arith

cell_back : (c : Option Cell) → CellIsSound c → optional cell_of (present (cell_plain c)) ≡ ok c
cell_back none h = refl
cell_back (some c) h = rw (from-to_plain c h)

expectation_back :
    (x : Option Expectation)
    → ExpectationIsSound x
    → optional expectation_of (present (expectation_plain x)) ≡ ok x
expectation_back none h = refl
expectation_back (some x) h = rw (from-to_expectation x h)

abbrev pub signed : Option ℕ → Option ℤ
signed none = none
signed (some n) = some (pos n)

pub attempt_back : (n : Option ℕ) → optional integer_of (present (attempt_plain n)) ≡ ok (signed n)
attempt_back none = refl
attempt_back (some n) = refl

attempt_from-signed :
    (c : Option Cell) (n : Option ℕ) → AttemptIsSound c n → attempt_from c (signed n) ≡ ok n
attempt_from-signed c none h = refl
attempt_from-signed none (some n) h = cc (h.0)
attempt_from-signed (some c) (some n) h = rw (ge→ltb n 1 h.1)

pub make_event-eq :
    (e : Event)
    → EventIsSound e
    → make_event e.kind e.key e.cell e.payload (signed e.attempt) e.expectation ≡ ok e
unfolding make_event
make_event-eq e h = rw (h.kinded, attempt_from-signed e.cell e.attempt h.counted, h.judged)

module _ (e : Event) (h : EventIsSound e) where
  abbrev line : Fields
  line = event_to_plain e

  read_cell : optional cell_of (present (get_field "cell" line)) ≡ ok e.cell
  read_cell =
      ap (λ p. optional cell_of (present p))
        (get-cell e.kind e.key e.cell e.payload e.attempt e.expectation)
      ∙ cell_back e.cell h.celled

  read_attempt : optional integer_of (present (get_field "attempt" line)) ≡ ok (signed e.attempt)
  read_attempt =
      ap (λ p. optional integer_of (present p))
        (get-attempt e.kind e.key e.cell e.payload e.attempt e.expectation)
      ∙ attempt_back e.attempt

  read_expectation :
      optional expectation_of (present (get_field "expectation" line)) ≡ ok e.expectation
  read_expectation =
      ap (λ p. optional expectation_of (present p))
        (get-expectation e.kind e.key e.cell e.payload e.attempt e.expectation)
      ∙ expectation_back e.expectation h.declared

  read_data : data_of (get_field "data" line) ≡ ok e.payload
  read_data = get-data e.kind e.key e.cell e.payload e.attempt e.expectation

  current_back : event_of_current line ≡ ok e
  unfolding event_of_current num_eq event_to_plain get_field
  current_back =
      rw read_cell (rw read_data (rw read_attempt (rw read_expectation (make_event-eq e h))))

  -- An event that its constructor accepts is read back from its line, attempt, expectation and data
  -- included.
  pub from-to_event : event_from_plain line ≡ ok e
  unfolding event_from_plain num_eq event_to_plain get_field
  from-to_event = current_back
