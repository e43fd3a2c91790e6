-- ===== src/Outcomes/Plain.antt =====
-- The Python values that a record line holds: what `json.loads` makes and `json.dumps` takes, with
-- their `==`. An object is a `dict` with text keys in insertion order.
use lab_commons.Commons.{
  ℕ, suc, ◌-◌, ◌*◌, ◌^◌, String, ◌≡◌, refl, Bool, true, false, ◌&&◌, Option, none, some, str_eq,
  ◌==◌, if◌then◌else◌, Result, ok, err, Error,
}
use lab_commons.Commons.Int.{ℤ, pos, negsuc, int_eq, int_eq_refl}

-- An `int`, or a `float`. Every finite float is an integer multiple of 2^-1074: `float k` is k times
-- that, so sums, products and roundings aside a value is exact. (Minus zero is zero here.)
pub data Number : Type 0 where
  int : ℤ → Number
  float : ℤ → Number
  infinity minus_infinity nan : Number

-- Multiples of 2^-1074 in an integer.
scaled : ℤ → ℤ
scaled (pos n) = pos (n * 2 ^ 1074)
scaled (negsuc n) = negsuc (suc n * 2 ^ 1074 - 1)

-- `a == b` of numbers: by exact value, an int and a float alike; `nan` equals nothing.
unfoldable pub num_eq : Number → Number → Bool
unfolding scaled
num_eq (int a) (int b) = int_eq a b
num_eq (int a) (float b) = int_eq (scaled a) b
num_eq (float a) (int b) = int_eq a (scaled b)
num_eq (float a) (float b) = int_eq a b
num_eq infinity infinity = true
num_eq minus_infinity minus_infinity = true
num_eq _ _ = false

abbrev pub is_nan : Number → Bool
is_nan nan = true
is_nan _ = false

abbrev pub is_finite : Number → Bool
is_finite (int _) = true
is_finite (float _) = true
is_finite _ = false

-- `n >= 0`, false of `nan`
unfoldable pub nonneg : Number → Bool
nonneg (int (pos _)) = true
nonneg (float (pos _)) = true
nonneg infinity = true
nonneg _ = false

pub num_eq_refl : (n : Number) → is_nan n ≡ false → num_eq n n ≡ true
unfolding num_eq
num_eq_refl (int a) h = int_eq_refl a
num_eq_refl (float a) h = int_eq_refl a
num_eq_refl infinity h = refl
num_eq_refl minus_infinity h = refl
num_eq_refl nan h = cc

mutual
  pub data Plain : Type 0 where
    null : Plain
    bool : Bool → Plain
    num : Number → Plain
    str : String → Plain
    arr : Items → Plain
    obj : Fields → Plain

  pub data Items : Type 0 where
    nil : Items
    cons : Plain → Items → Items

  pub data Fields : Type 0 where
    end : Fields
    field : String → Plain → Fields → Fields

-- `isinstance` tests with the value that they find. A `bool` is an `int` in Python: it compares as
-- a number, and `as_number` tells it apart as the source does.
abbrev pub as_number : Plain → Option Number
as_number (num n) = some n
as_number _ = none

abbrev pub numeral : Plain → Option Number
numeral (num n) = some n
numeral (bool true) = some (int (pos 1))
numeral (bool false) = some (int (pos 0))
numeral _ = none

abbrev pub as_str : Plain → Option String
as_str (str s) = some s
as_str _ = none

abbrev pub as_arr : Plain → Option Items
as_arr (arr xs) = some xs
as_arr _ = none

abbrev pub as_obj : Plain → Option Fields
as_obj (obj fs) = some fs
as_obj _ = none

abbrev is_null : Plain → Bool
is_null null = true
is_null _ = false

-- `plain.get(key)` and `plain[key]`
unfoldable pub get_field : String → Fields → Option Plain
get_field k end = none
get_field k (field j v fs) = if str_eq j k then some v else get_field k fs

abbrev pub need_field : String → Fields → Result Plain
need_field k fs = elim (get_field k fs) [ none ↦ err Error.key_error | some v ↦ ok v ]

abbrev pub size_fields : Fields → ℕ
size_fields end = 0
size_fields (field k v fs) = suc (size_fields fs)

abbrev num_eq? : Option Number → Option Number → Bool
num_eq? (some a) (some b) = num_eq a b
num_eq? _ _ = false

abbrev str_eq? : String → Option String → Bool
str_eq? s none = false
str_eq? s (some t) = str_eq s t

abbrev on {ℓ} : {A : Type ℓ} → Option A → (A → Bool) → Bool
on none f = false
on (some a) f = f a

-- `a == b`: lists item by item, objects by their keys, whatever the order.
unfoldable mutual
  pub plain_eq : Plain → Plain → Bool
  plain_eq null q = is_null q
  plain_eq (bool true) q = num_eq? (some (int (pos 1))) (numeral q)
  plain_eq (bool false) q = num_eq? (some (int (pos 0))) (numeral q)
  plain_eq (num n) q = num_eq? (some n) (numeral q)
  plain_eq (str s) q = str_eq? s (as_str q)
  plain_eq (arr xs) q = on (as_arr q) (λ ys. items_eq xs ys)
  plain_eq (obj fs) q = on (as_obj q) (λ gs. size_fields fs == size_fields gs && fields_in fs gs)

  pub items_eq : Items → Items → Bool
  items_eq nil nil = true
  items_eq (cons x xs) (cons y ys) = plain_eq x y && items_eq xs ys
  items_eq _ _ = false

  -- Each field of the first object is in the second, with an equal value.
  pub fields_in : Fields → Fields → Bool
  fields_in end gs = true
  fields_in (field k v fs) gs = on (get_field k gs) (λ w. plain_eq v w) && fields_in fs gs
