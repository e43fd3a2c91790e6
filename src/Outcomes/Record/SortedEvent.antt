-- ===== src/Outcomes/Record/SortedEvent.antt =====
-- `Event.from_plain` of src/lab_commons/outcomes/record.py on a line whose keys are in order, as `append` writes
-- it.
use lab_commons.Commons.{
  arith, if◌then◌else◌, ℕ, String, ◌≡◌, refl, ap, ◌∙◌, Option, none, some, ok, err, Error, Result,
  ◌>>=◌, ◌>>◌, guard, optional,
}
use lab_commons.Commons.Int.{pos}
use lab_commons.Outcomes.Plain.{Plain, num, obj, Fields, end, field, int, num_eq, get_field}
use lab_commons.Outcomes.KeyOrder.{sort_plain, sort_fields, sort_option, get_field-sort}
use lab_commons.Outcomes.Cell.Parts.{Cell}
use lab_commons.Outcomes.Expectation.{Expectation}
use lab_commons.Outcomes.Record.Event.{
  Event, make_event, event_to_plain, event_of_current, event_from_plain, cell_of, expectation_of,
  integer_of, data_of, present, text_of, names_schema, schema_version, upgrade, upgrade_fuel,
  hashable,
}
use lab_commons.Outcomes.Record.EventRoundTrip.{
  EventIsSound, CellIsSound, ExpectationIsSound, cell_plain, attempt_plain, expectation_plain,
  signed, get-cell, get-attempt, get-expectation, make_event-eq,
}
use lab_commons.Outcomes.Record.EventLaws.{upgrade-current}
use lab_commons.Outcomes.Record.SortedLine.{HasOrder, from-sorted_cell, from-sorted_expectation}

abbrev pub CellHasOrder : Option Cell → Type 0
CellHasOrder none = Unit
CellHasOrder (some c) = HasOrder c

-- The data and the values of the event are in the order of their keys.
pub record EventHasOrder (e : Event) : Type 0 where
  pub cell_order : CellHasOrder e.cell
  pub data_order : sort_fields e.payload ≡ e.payload

-- `event_of_current` of the fields that it reads.
abbrev event_parts :
    Option Plain
    → Option Plain
    → Option Plain
    → Option Plain
    → Option Plain
    → Option Plain
    → Option Plain
    → Result Event
event_parts schema kind key cell payload attempt expectation = do
  guard (names_schema schema_version schema) Error.unknown_schema
  kind' ← elim kind [ none ↦ err Error.key_error | some v ↦ ok v ]
  kind'' ← text_of kind'
  key' ← elim key [ none ↦ err Error.key_error | some v ↦ ok v ]
  key'' ← text_of key'
  cell' ← optional cell_of (present cell)
  payload' ← data_of payload
  attempt' ← optional integer_of (present attempt)
  expectation' ← optional expectation_of (present expectation)
  make_event kind'' key'' cell' payload' attempt' expectation'

event_of_current-parts :
    (fs : Fields)
    → event_of_current fs
      ≡ event_parts
          (get_field "schema" fs)
          (get_field "kind" fs)
          (get_field "key" fs)
          (get_field "cell" fs)
          (get_field "data" fs)
          (get_field "attempt" fs)
          (get_field "expectation" fs)
unfolding event_of_current
event_of_current-parts fs = refl

event_parts-sorted :
    (fs : Fields)
    → event_of_current (sort_fields fs)
      ≡ event_parts
          (sort_option (get_field "schema" fs))
          (sort_option (get_field "kind" fs))
          (sort_option (get_field "key" fs))
          (sort_option (get_field "cell" fs))
          (sort_option (get_field "data" fs))
          (sort_option (get_field "attempt" fs))
          (sort_option (get_field "expectation" fs))
event_parts-sorted fs = event_of_current-parts (sort_fields fs) ∙ (λ i.
    event_parts (get_field-sort "schema" fs i) (get_field-sort "kind" fs i)
      (get_field-sort "key" fs i) (get_field-sort "cell" fs i) (get_field-sort "data" fs i)
      (get_field-sort "attempt" fs i) (get_field-sort "expectation" fs i))

-- A line of the current schema is not upgraded.
event_from_plain-current :
    (fs : Fields)
    → get_field "schema" fs ≡ some (num (int (pos schema_version)))
    → event_from_plain fs ≡ event_of_current fs
unfolding event_from_plain num_eq
event_from_plain-current fs h =
    ap
      (λ p. if hashable p then event_of_current (upgrade upgrade_fuel fs) else err Error.type_error)
      h
    ∙ ap event_of_current
        (upgrade-current fs (ap (names_schema 1) h) (ap (names_schema 2) h) upgrade_fuel)

cell_sorted :
    (c : Option Cell)
    → CellIsSound c
    → CellHasOrder c
    → optional cell_of (present (sort_option (cell_plain c))) ≡ ok c
unfolding sort_plain
cell_sorted none h o = refl
cell_sorted (some c) h o = rw (from-sorted_cell c h o)

expectation_sorted :
    (x : Option Expectation)
    → ExpectationIsSound x
    → optional expectation_of (present (sort_option (expectation_plain x))) ≡ ok x
unfolding sort_plain
expectation_sorted none h = refl
expectation_sorted (some x) h = rw (from-sorted_expectation x h)

attempt_sorted :
    (n : Option ℕ) → optional integer_of (present (sort_option (attempt_plain n))) ≡ ok (signed n)
unfolding sort_plain
attempt_sorted none = refl
attempt_sorted (some n) = refl

abbrev data_plain : Fields → Option Plain
data_plain end = none
data_plain (field k v fs) = some (obj (field k v fs))

get-data_plain :
    (c : Option Cell) (d : Fields) (kind key : String) (n : Option ℕ) (x : Option Expectation)
    → get_field "data" (
        event_to_plain
          (record { kind = kind; key = key; cell = c; payload = d; attempt = n; expectation = x }))
      ≡ data_plain d
unfolding event_to_plain get_field
get-data_plain none end kind key none none = refl
get-data_plain c d kind key n x = ground arith

data_sorted : (d : Fields) → sort_fields d ≡ d → data_of (sort_option (data_plain d)) ≡ ok d
unfolding sort_plain
data_sorted end h = refl
data_sorted (field k v fs) h = ap (λ (d : Fields). ok d) h

module _ (e : Event) (h : EventIsSound e) (o : EventHasOrder e) where
  abbrev sorted_line : Fields
  sorted_line = sort_fields (event_to_plain e)

  current_sorted : event_of_current sorted_line ≡ ok e
  unfolding num_eq event_to_plain get_field sort_plain
  current_sorted =
      event_parts-sorted (event_to_plain e)
      ∙ rw
          (
            get-cell e.kind e.key e.cell e.payload e.attempt e.expectation,
            get-data_plain e.cell e.payload e.kind e.key e.attempt e.expectation,
            get-attempt e.kind e.key e.cell e.payload e.attempt e.expectation,
            get-expectation e.kind e.key e.cell e.payload e.attempt e.expectation,
          )
          (rw (cell_sorted e.cell h.celled o.cell_order) (
            rw (data_sorted e.payload o.data_order) (
              rw (attempt_sorted e.attempt)
                (rw (expectation_sorted e.expectation h.declared) (make_event-eq e h)))))

  -- An event that its constructor accepts, with its data and values in the order of their keys, is read back
  -- from its line with the keys in order.
  pub from-sorted_event : event_from_plain sorted_line ≡ ok e
  unfolding event_to_plain get_field sort_plain
  from-sorted_event =
      event_from_plain-current sorted_line (get_field-sort "schema" (event_to_plain e))
      ∙ current_sorted
