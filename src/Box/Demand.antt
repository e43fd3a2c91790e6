-- ===== src/Box/Demand.antt =====
-- src/lab_commons/box/demand.py: the demand's checks and readings, `Capacity` and `Holding`. Amounts
-- are in units of 2^-30 (Compute/Resources.antt), so an amount of memory in gigabytes is its bytes;
-- cores and seats that Python keeps as `int` are whole counts. Times are whole units since the epoch.
use lab_commons.Commons.{
  ℕ, ◌*◌, ◌/◌, ◌%◌, String, Bool, true, false, not, ◌&&◌, ◌||◌, Option, List, [], ◌∷◌, map, ltb,
  leb, ◌==◌, str_eq, Result, ok, Error, ◌>>=◌, ◌>>◌, guard, all, keep,
}
use lab_commons.Commons.Int.{ℤ, pos, negsuc}
use lab_commons.Commons.Dict.{Dict}
use lab_commons.Compute.Resources.{Resources, whole, amount, make_resources}

-- Seven days, in seconds.
abbrev pub wall_ceiling_s : ℕ
wall_ceiling_s = 7 * 24 * 3600

abbrev pub cpu_name : String
cpu_name = "cpu"

abbrev pub mem_name : String
mem_name = "mem_gb"

abbrev pub is_share : String → Bool
is_share k = str_eq cpu_name k || str_eq mem_name k

-- `cores(demand)`
unfoldable pub cores : Dict ℕ → ℕ
unfolding amount
cores d = amount cpu_name d / whole

-- `mem_bytes(demand)`
unfoldable pub mem_bytes : Dict ℕ → ℕ
unfolding amount
mem_bytes d = amount mem_name d

-- `seats(demand)`
unfoldable pub seats : Dict ℕ → Dict ℕ
seats d = map (λ i. (i.0, i.1 / whole)) (keep (λ i. not (is_share i.0)) d)

-- `_positive_int(wall_s)` and not `_past_ceiling(wall_s)`, of an `int`.
unfoldable pub wall_is_bounded : ℤ → Bool
wall_is_bounded (pos n) = ltb 0 n && leb n wall_ceiling_s
wall_is_bounded (negsuc n) = false

abbrev pub is_whole : ℕ → Bool
is_whole n = n % whole == 0

abbrev pub books_something : Dict ℕ → Bool
books_something [] = false
books_something (i ∷ d) = true

-- No line of the list `bad` of `checked`.
unfoldable pub is_bookable : Resources → ℤ → Bool
unfolding amount wall_is_bounded
is_bookable asked wall_s =
    is_whole (amount cpu_name asked)
    && (amount cpu_name asked == 0 || ltb 0 (amount mem_name asked))
    && books_something asked
    && wall_is_bounded wall_s
    && all (λ i. is_share i.0 || is_whole i.1) asked

-- `checked(demand, wall_s)`
unfoldable pub checked : Dict ℤ → ℤ → Result Resources
unfolding make_resources is_bookable
checked demand wall_s = do
  asked ← make_resources demand
  guard (is_bookable asked wall_s) Error.value_error
  ok asked

-- `watched` and `blind` are the names; why a seat is blind is not modelled.
pub record Capacity : Type 0 where
  pub cpu : ℕ
  pub memory : ℕ
  pub seats : Dict ℕ
  pub kept_cpu : ℕ
  pub kept_bytes : ℕ
  pub watched : List String
  pub blind : List String

-- `cpu` in whole cores, `memory` in bytes.
pub record Holding : Type 0 where
  pub what : String
  pub pid : ℕ
  pub cpu : ℕ
  pub memory : ℕ
  pub seats : Dict ℕ
  pub deadline : ℕ
  pub id : ℕ
  pub key : String
  pub probe : Option (List String)
  pub kept : Bool
