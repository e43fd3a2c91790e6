-- ===== src/Outcomes/Expectation.antt =====
-- src/lab_commons/outcomes/expectation.py: what a task is declared to conclude, and why.
pub mod RoundTrip
use lab_commons.Commons.{
  ℕ, String, Bool, true, false, not, ◌&&◌, ◌||◌, Option, none, some, List, [], ◌∷◌, leb, ◌==◌, any,
  Result, ok, err, Error, ◌>>=◌, ◌>>◌, guard,
}
use lab_commons.Commons.Text.{codes}
use lab_commons.Outcomes.Status.{
  Status, ok_status, rejected, not_applicable, value, parse_status, decided, status_eq,
}
use lab_commons.Outcomes.Plain.{Plain, str, Fields, end, field, need_field}

-- The code points that `str.strip` drops.
abbrev is_space : ℕ → Bool
is_space c =
    leb 9 c && leb c 13
    || leb 28 c && leb c 32
    || c == 133
    || c == 160
    || c == 5760
    || leb 8192 c && leb c 8202
    || c == 8232
    || c == 8233
    || c == 8239
    || c == 8287
    || c == 12288

-- `not s.strip()`, negated.
unfoldable pub says_something : String → Bool
says_something s = any (λ c. not (is_space c)) (codes s)

-- `_EXPECTABLE`
unfoldable pub expectable : Status → Bool
expectable ok_status = true
expectable rejected = true
expectable _ = false

pub record Expectation : Type 0 where
  pub status : Status
  pub why : String

-- `Expectation(status, why)`
unfoldable pub make_expectation : Status → String → Result Expectation
make_expectation s why = do
  guard (expectable s) Error.value_error
  guard (says_something why) Error.value_error
  ok (record { status = s; why = why })

-- `Expectation.default()`
abbrev pub default_expectation : Expectation
default_expectation = record { status = ok_status; why = "the declared default" }

-- `expectation.met_by(status)`
unfoldable pub met_by : Expectation → Status → Option Bool
unfolding decided status_eq value
met_by e s = elim (decided s) [
  | false ↦ none
  | true ↦ some (status_eq s not_applicable || status_eq s e.status)
]

-- `expectation.to_plain()`
unfoldable pub expectation_to_plain : Expectation → Fields
expectation_to_plain e = field "status" (str (value e.status)) (field "why" (str e.why) end)

abbrev status_from : Plain → Result Status
status_from (str s) = parse_status s
status_from _ = err Error.value_error

abbrev why_from : Plain → Result String
why_from (str s) = ok s
why_from _ = err Error.attribute_error

-- `Expectation.from_plain(plain)`
unfoldable pub expectation_from_plain : Fields → Result Expectation
expectation_from_plain plain = do
  spelled ← need_field "status" plain
  status ← status_from spelled
  raw ← need_field "why" plain
  why ← why_from raw
  make_expectation status why
