-- ===== src/Outcomes/Cell/Parts.antt =====
-- src/lab_commons/outcomes/cell.py: the constructors of `Reason`, `Cost` and `Cell`, and equality.
use lab_commons.Commons.{
  ℕ, String, Bool, true, false, ◌&&◌, ◌||◌, Option, none, some, List, [], ◌∷◌, leb, str_eq, ◌==◌,
  Result, ok, err, Error, ◌>>=◌, ◌>>◌, guard, traverse, any, all,
}
use lab_commons.Commons.Dict.{Dict}
use lab_commons.Commons.Text.{codes}
use lab_commons.Outcomes.Status.{Status, ok_status, pending, partial, status_eq, Evidence, ordinal}
use lab_commons.Outcomes.Plain.{Plain, num, Number, nan, num_eq, nonneg}

-- The regular expression `[a-z][a-z0-9_]*`, matched against the whole text.
abbrev is_lower : ℕ → Bool
is_lower c = leb b'a' c && leb c b'z'

abbrev is_word : ℕ → Bool
is_word c = is_lower c || leb b'0' c && leb c b'9' || c == b'_'

abbrev is_token_codes : List ℕ → Bool
is_token_codes [] = false
is_token_codes (c ∷ cs) = is_lower c && all is_word cs

unfoldable pub is_token : String → Bool
is_token s = is_token_codes (codes s)

pub record Reason : Type 0 where
  pub kind : String
  pub text : String

-- `Reason(kind, text)`
unfoldable pub make_reason : String → String → Result Reason
make_reason kind text = do
  guard (is_token kind) Error.value_error
  ok (record { kind = kind; text = text })

-- Unknown is `none`, never zero.
pub record Cost : Type 0 where
  pub wall_s : Option Number
  pub cpu_s : Option Number
  pub peak_memory_bytes : Option Number

abbrev pub measured : Option Number → Bool
measured none = true
measured (some n) = nonneg n

-- `Cost(wall_s, cpu_s, peak_memory_bytes)`
unfoldable pub make_cost : Option Number → Option Number → Option Number → Result Cost
make_cost wall cpu peak = do
  guard (measured wall) Error.value_error
  guard (measured cpu) Error.value_error
  guard (measured peak) Error.value_error
  ok (record { wall_s = wall; cpu_s = cpu; peak_memory_bytes = peak })

-- `_number`
unfoldable pub number : Plain → Result Number
number (num nan) = err Error.value_error
number (num n) = ok n
number _ = err Error.type_error

-- `_CARRIES_VALUES`
unfoldable pub carries_values : Status → Bool
carries_values ok_status = true
carries_values partial = true
carries_values _ = false

-- `_NEEDS_NO_REASON`
unfoldable pub needs_no_reason : Status → Bool
needs_no_reason ok_status = true
needs_no_reason pending = true
needs_no_reason _ = false

pub record Cell : Type 0 where
  pub status : Status
  pub values : Dict Number
  pub reason : Option Reason
  pub evidence : Evidence
  pub cost : Option Cost

abbrev pub is_empty {ℓ} : {A : Type ℓ} → List A → Bool
is_empty [] = true
is_empty (x ∷ xs) = false

abbrev pub is_some {ℓ} : {A : Type ℓ} → Option A → Bool
is_some none = false
is_some (some a) = true

-- One item of the comprehension over the values.
unfoldable pub number_item : String × Plain → Result (String × Number)
unfolding number
number_item (k, v) = do n ← number v; ok (k, n)

-- `Cell(status, values, reason, evidence, cost)`
unfoldable pub make_cell :
    Status → Dict Plain → Option Reason → Evidence → Option Cost → Result Cell
make_cell status values reason evidence cost = do
  frozen ← traverse number_item values
  guard (is_empty frozen || carries_values status) Error.value_error
  guard (is_some reason || needs_no_reason status) Error.value_error
  ok (record {
    status = status;
    values = frozen;
    reason = reason;
    evidence = evidence;
    cost = cost;
  })

-- `Cell(Status.PENDING)`, which no check refuses.
abbrev pub pending_cell : Cell
pending_cell = record {
  status = pending;
  values = [];
  reason = none;
  evidence = Evidence.observed;
  cost = none;
}

abbrev pub reason_eq : Reason → Reason → Bool
reason_eq a b = str_eq a.kind b.kind && str_eq a.text b.text

abbrev pub option_eq {ℓ} : {A : Type ℓ} → (A → A → Bool) → Option A → Option A → Bool
option_eq f none none = true
option_eq f (some a) (some b) = f a b
option_eq f _ _ = false

abbrev pub cost_eq : Cost → Cost → Bool
cost_eq a b =
    option_eq num_eq a.wall_s b.wall_s
    && option_eq num_eq a.cpu_s b.cpu_s
    && option_eq num_eq a.peak_memory_bytes b.peak_memory_bytes

abbrev pub item_eq : String × Number → String × Number → Bool
item_eq (k, v) (j, w) = str_eq k j && num_eq v w

-- `frozenset(a.items()) == frozenset(b.items())`
abbrev pub subset_items : Dict Number → Dict Number → Bool
subset_items d e = all (λ i. any (λ j. item_eq i j) e) d

-- `a._parts() == b._parts()`
unfoldable pub cell_eq : Cell → Cell → Bool
cell_eq a b =
    status_eq a.status b.status
    && (subset_items a.values b.values && subset_items b.values a.values)
    && option_eq reason_eq a.reason b.reason
    && ordinal a.evidence == ordinal b.evidence
    && option_eq cost_eq a.cost b.cost
