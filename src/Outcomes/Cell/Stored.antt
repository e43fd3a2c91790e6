-- ===== src/Outcomes/Cell/Stored.antt =====
-- src/lab_commons/outcomes/cell.py: `Cell.to_plain` and `Cell.from_plain`. Of the malformed lines
-- that `from_plain` can meet, those whose reason text, values or cost have another JSON type than
-- `to_plain` writes are refused here with a type error.
use lab_commons.Commons.{
  String, Bool, true, ◌&&◌, ◌||◌, Option, none, some, [], ◌∷◌, str_eq, if◌then◌else◌, Result, ok,
  err, Error, ◌>>=◌,
}
use lab_commons.Commons.Dict.{Dict}
use lab_commons.Outcomes.Status.{
  Status, value, parse_status, Evidence, observed, token, parse_evidence,
}
use lab_commons.Outcomes.Plain.{
  Plain, null, num, str, obj, Fields, end, field, Number, get_field, need_field, numeral,
}
use lab_commons.Outcomes.Cell.Parts.{Reason, make_reason, Cost, make_cost, Cell, make_cell}

-- `dict(values)` as an object, and an object as a dictionary.
unfoldable pub to_fields : Dict Number → Fields
to_fields [] = end
to_fields ((k, n) ∷ d) = field k (num n) (to_fields d)

unfoldable pub from_fields : Fields → Dict Plain
from_fields end = []
from_fields (field k v fs) = (k, v) ∷ from_fields fs

unfoldable pub reason_to_plain : Reason → Plain
reason_to_plain r = obj (field "kind" (str r.kind) (field "text" (str r.text) end))

abbrev pub known_field : String → Option Number → Fields → Fields
known_field k none rest = rest
known_field k (some n) rest = field k (num n) rest

-- `{k: v for k, v in asdict(cost).items() if v is not None}`
unfoldable pub cost_to_plain : Cost → Plain
cost_to_plain c = obj (
    known_field "wall_s" c.wall_s
      (known_field "cpu_s" c.cpu_s (known_field "peak_memory_bytes" c.peak_memory_bytes end)))

abbrev pub values_field : Dict Number → Fields → Fields
values_field [] rest = rest
values_field (i ∷ d) rest = field "values" (obj (to_fields (i ∷ d))) rest

abbrev pub optional_field {ℓ} : {A : Type ℓ} → String → (A → Plain) → Option A → Fields → Fields
optional_field k f none rest = rest
optional_field k f (some a) rest = field k (f a) rest

-- `cell.to_plain()`
unfoldable pub cell_to_plain : Cell → Fields
unfolding to_fields reason_to_plain cost_to_plain
cell_to_plain c = field "status" (str (value c.status)) (
    field "evidence" (str (token c.evidence)) (
      values_field c.values (
        optional_field "reason" reason_to_plain c.reason
          (optional_field "cost" cost_to_plain c.cost end))))

abbrev pub string_or : Error → Plain → Result String
string_or e (str s) = ok s
string_or e _ = err e

-- `Status(plain['status'])`
abbrev pub status_from : Plain → Result Status
status_from (str s) = parse_status s
status_from _ = err Error.value_error

-- `plain.get('values', {})`, then `values or {}`
abbrev pub values_from : Option Plain → Result (Dict Plain)
values_from none = ok []
values_from (some null) = ok []
values_from (some (obj fs)) = ok (from_fields fs)
values_from (some _) = err Error.type_error

abbrev pub text_from : Option Plain → Result String
text_from none = ok ""
text_from (some p) = string_or Error.type_error p

-- `None if reason is None else Reason(reason['kind'], reason.get('text', ''))`
abbrev pub reason_from : Option Plain → Result (Option Reason)
reason_from none = ok none
reason_from (some null) = ok none
reason_from (some (obj fs)) = do
  raw ← need_field "kind" fs
  kind ← string_or Error.value_error raw
  text ← text_from (get_field "text" fs)
  r ← make_reason kind text
  ok (some r)
reason_from (some _) = err Error.type_error

-- `Evidence.parse(plain.get('evidence', 'observed'))`
abbrev pub evidence_from : Option Plain → Result Evidence
evidence_from none = ok observed
evidence_from (some (str s)) = parse_evidence s
evidence_from (some _) = err Error.attribute_error

-- A keyword argument of `Cost`; `None` is its default.
abbrev pub measure_from : Option Plain → Result (Option Number)
measure_from none = ok none
measure_from (some null) = ok none
measure_from (some p) = elim (numeral p) [ none ↦ err Error.type_error | some n ↦ ok (some n) ]

-- `Cost(**cost)` takes no other keyword.
abbrev pub cost_keys : Fields → Bool
cost_keys end = true
cost_keys (field k v fs) =
    (str_eq "wall_s" k || str_eq "cpu_s" k || str_eq "peak_memory_bytes" k) && cost_keys fs

abbrev pub cost_from : Option Plain → Result (Option Cost)
cost_from none = ok none
cost_from (some null) = ok none
cost_from (some (obj fs)) =
    if cost_keys fs
    then (do
      wall ← measure_from (get_field "wall_s" fs)
      cpu ← measure_from (get_field "cpu_s" fs)
      peak ← measure_from (get_field "peak_memory_bytes" fs)
      c ← make_cost wall cpu peak
      ok (some c))
    else err Error.type_error
cost_from (some _) = err Error.type_error

-- `Cell.from_plain(plain)`
unfoldable pub cell_from_plain : Fields → Result Cell
unfolding from_fields
cell_from_plain plain = do
  spelled ← need_field "status" plain
  status ← status_from spelled
  values ← values_from (get_field "values" plain)
  reason ← reason_from (get_field "reason" plain)
  evidence ← evidence_from (get_field "evidence" plain)
  cost ← cost_from (get_field "cost" plain)
  make_cell status values reason evidence cost
