-- ===== src/Outcomes/Record/Event.antt =====
-- src/lab_commons/outcomes/record.py: one event, its plain line, and the upgrade of older lines.
-- A line's text is made and read by `json`; here a line is the object that it spells. Of malformed
-- lines, those whose kind, key, data or attempt have another JSON type than `to_plain` writes are
-- refused here with a type error.
use lab_commons.Commons.{
  ℕ, zero, suc, String, Bool, true, false, not, ◌&&◌, ◌||◌, Option, none, some, ltb, str_eq, ◌==◌,
  if◌then◌else◌, Result, ok, err, Error, ◌>>=◌, ◌>>◌, guard, optional,
}
use lab_commons.Commons.Int.{ℤ, pos, negsuc}
use lab_commons.Outcomes.Plain.{
  Plain, null, bool, num, str, arr, obj, Fields, end, field, int, num_eq, numeral, get_field,
  need_field, plain_eq,
}
use lab_commons.Outcomes.Status.{value}
use lab_commons.Outcomes.Cell.Parts.{Cell, cell_eq, is_some, option_eq}
use lab_commons.Outcomes.Cell.Stored.{cell_to_plain, cell_from_plain, optional_field}
use lab_commons.Outcomes.Expectation.{Expectation, expectation_to_plain, expectation_from_plain}

abbrev pub schema_version : ℕ
schema_version = 3

abbrev pub submitted_kind : String
submitted_kind = "submitted"

abbrev pub outcome_kind : String
outcome_kind = "outcome"

-- `payload` is the field `data`.
pub record Event : Type 0 where
  pub kind : String
  pub key : String
  pub cell : Option Cell
  pub payload : Fields
  pub attempt : Option ℕ
  pub expectation : Option Expectation

abbrev pub is_outcome : String → Bool
is_outcome kind = str_eq kind outcome_kind

abbrev pub same_bool : Bool → Bool → Bool
same_bool true b = b
same_bool false b = not b

-- The attempt is absent, or a number from 1 on beside a cell.
abbrev pub attempt_from : Option Cell → Option ℤ → Result (Option ℕ)
attempt_from cell none = ok none
attempt_from none (some z) = err Error.value_error
attempt_from (some c) (some (negsuc n)) = err Error.value_error
attempt_from (some c) (some (pos n)) = if ltb n 1 then err Error.value_error else ok (some n)

-- `Event(kind, key, cell, data, attempt, expectation)`
unfoldable pub make_event :
    String → String → Option Cell → Fields → Option ℤ → Option Expectation → Result Event
make_event kind key cell payload attempt expectation = do
  guard (same_bool (is_outcome kind) (is_some cell)) Error.value_error
  counted ← attempt_from cell attempt
  guard (not (is_some expectation) || is_some cell) Error.value_error
  ok (record {
    kind = kind;
    key = key;
    cell = cell;
    payload = payload;
    attempt = counted;
    expectation = expectation;
  })

abbrev expectation_eq : Expectation → Expectation → Bool
expectation_eq a b = str_eq (value a.status) (value b.status) && str_eq a.why b.why

-- `a == b` of the dataclass.
unfoldable pub event_eq : Event → Event → Bool
event_eq a b =
    str_eq a.kind b.kind
    && str_eq a.key b.key
    && option_eq cell_eq a.cell b.cell
    && plain_eq (obj a.payload) (obj b.payload)
    && option_eq ◌==◌ a.attempt b.attempt
    && option_eq expectation_eq a.expectation b.expectation

abbrev data_field : Fields → Fields
data_field end = end
data_field (field k v fs) = field "data" (obj (field k v fs)) end

-- `event.to_plain()`
unfoldable pub event_to_plain : Event → Fields
event_to_plain e = field "schema" (num (int (pos schema_version))) (
    field "kind" (str e.kind) (
      field "key" (str e.key) (
        optional_field "cell" (λ c. obj (cell_to_plain c)) e.cell
          (optional_field "attempt" (λ n. num (int (pos n))) e.attempt
            (optional_field "expectation" (λ x. obj (expectation_to_plain x)) e.expectation
              (data_field e.payload))))))

-- `{**raw, key: v}`
unfoldable pub set_field : String → Plain → Fields → Fields
set_field k v end = field k v end
set_field k v (field j w fs) = if str_eq j k then field j v fs else field j w (set_field k v fs)

-- `_v1_to_v2` and `_v2_to_v3`: only the version moves.
unfoldable pub v1_to_v2 : Fields → Fields
unfolding set_field
v1_to_v2 raw = set_field "schema" (num (int (pos 2))) raw

unfoldable pub v2_to_v3 : Fields → Fields
unfolding set_field
v2_to_v3 raw = set_field "schema" (num (int (pos 3))) raw

-- `raw.get('schema') == n`, for a schema that Python can look up in a dictionary.
abbrev pub names_schema : ℕ → Option Plain → Bool
names_schema n none = false
names_schema n (some p) = elim (numeral p) [ none ↦ false | some m ↦ num_eq m (int (pos n)) ]

abbrev pub is_schema : ℕ → Fields → Bool
is_schema n raw = names_schema n (get_field "schema" raw)

-- A list or an object cannot be looked up.
abbrev pub hashable : Option Plain → Bool
hashable (some (arr xs)) = false
hashable (some (obj fs)) = false
hashable _ = true

-- The `while` loop: with fuel, since each round moves the version up and only 1 and 2 are moved.
unfoldable pub upgrade : ℕ → Fields → Fields
unfolding v1_to_v2 v2_to_v3
upgrade zero raw = raw
upgrade (suc fuel) raw =
    let from_1 = upgrade fuel (v1_to_v2 raw) in
    let from_2 = upgrade fuel (v2_to_v3 raw) in
    if is_schema 1 raw then from_1 else if is_schema 2 raw then from_2 else raw

-- Two rounds are enough.
abbrev pub upgrade_fuel : ℕ
upgrade_fuel = 2

abbrev pub text_of : Plain → Result String
text_of (str s) = ok s
text_of _ = err Error.type_error

abbrev pub cell_of : Plain → Result Cell
cell_of (obj fs) = cell_from_plain fs
cell_of _ = err Error.type_error

abbrev pub expectation_of : Plain → Result Expectation
expectation_of (obj fs) = expectation_from_plain fs
expectation_of _ = err Error.type_error

abbrev pub integer_of : Plain → Result ℤ
integer_of (num (int z)) = ok z
integer_of (bool true) = ok (pos 1)
integer_of (bool false) = ok (pos 0)
integer_of _ = err Error.type_error

-- A missing field and a null one read as `None`.
abbrev pub present : Option Plain → Option Plain
present (some null) = none
present o = o

abbrev pub data_of : Option Plain → Result Fields
data_of none = ok end
data_of (some (obj fs)) = ok fs
data_of (some _) = err Error.type_error

-- `Event.from_plain(plain)`, after its upgrade.
unfoldable pub event_of_current : Fields → Result Event
event_of_current raw = do
  guard (is_schema schema_version raw) Error.unknown_schema
  kind ← need_field "kind" raw
  kind' ← text_of kind
  key ← need_field "key" raw
  key' ← text_of key
  cell ← optional cell_of (present (get_field "cell" raw))
  payload ← data_of (get_field "data" raw)
  attempt ← optional integer_of (present (get_field "attempt" raw))
  expectation ← optional expectation_of (present (get_field "expectation" raw))
  make_event kind' key' cell payload attempt expectation

-- `Event.from_plain(plain)`
unfoldable pub event_from_plain : Fields → Result Event
unfolding upgrade event_of_current
event_from_plain plain =
    if hashable (get_field "schema" plain)
    then event_of_current (upgrade upgrade_fuel plain)
    else err Error.type_error
