-- ===== src/Outcomes/KeyOrder.antt =====
-- The order of keys in which src/lab_commons/outcomes/record.py writes a line (`sort_keys=True`).
use lab_commons.Commons.{
  ℕ, String, ◌≡◌, refl, subst, Bool, true, false, ◌&&◌, ◌||◌, Option, none, some, List, [], ◌∷◌,
  str_eq, eq_iff, ltb, ◌==◌, if◌then◌else◌, arith, Bool-cases, inl, inr,
}
use lab_commons.Commons.Text.{codes}
use lab_commons.Outcomes.Plain.{
  Plain, null, bool, num, str, arr, obj, Items, nil, cons, Fields, end, field, get_field,
}

abbrev codes_lt : List ℕ → List ℕ → Bool
codes_lt a [] = false
codes_lt [] (b ∷ bs) = true
codes_lt (a ∷ xs) (b ∷ bs) = ltb a b || (a == b && codes_lt xs bs)

-- `a < b` of texts, by code points.
abbrev pub text_lt : String → String → Bool
text_lt a b = codes_lt (codes a) (codes b)

abbrev place_field : String → Plain → Fields → Fields
place_field k v end = field k v end
place_field k v (field j w fs) =
    let later = place_field k v fs in
    if text_lt j k then field j w later else field k v (field j w fs)

-- A value with the keys of every object in it in order.
unfoldable mutual
  pub sort_plain : Plain → Plain
  sort_plain null = null
  sort_plain (bool b) = bool b
  sort_plain (num n) = num n
  sort_plain (str s) = str s
  sort_plain (arr xs) = arr (sort_items xs)
  sort_plain (obj fs) = obj (sort_fields fs)

  pub sort_items : Items → Items
  sort_items nil = nil
  sort_items (cons x xs) = cons (sort_plain x) (sort_items xs)

  pub sort_fields : Fields → Fields
  sort_fields end = end
  sort_fields (field k v fs) = place_field k (sort_plain v) (sort_fields fs)

codes_lt_irrefl : (a : List ℕ) → codes_lt a a ≡ false
codes_lt_irrefl [] = refl
codes_lt_irrefl (a ∷ xs) = ground (arith, codes_lt_irrefl xs)

abbrev pub sort_option : Option Plain → Option Plain
sort_option none = none
sort_option (some p) = some (sort_plain p)

not_before : (j k : String) → str_eq j k ≡ true → text_lt j k ≡ false
not_before j k h = subst (λ t. text_lt j t ≡ false) ((eq_iff j k).0 h) (codes_lt_irrefl (codes j))

get_field-place :
    (i k : String) (v : Plain) (fs : Fields)
    → get_field i (place_field k v fs) ≡ (if str_eq k i then some v else get_field i fs)
unfolding get_field
get_field-place i k v end = refl
get_field-place i k v (field j w fs) = elim (Bool-cases (text_lt j k)) [
  | inl e ↦
      rw e (ground (arith, get_field-place i k v fs, eq_iff j i, eq_iff k i, not_before j k, e))
  | inr e ↦ rw e refl
]

-- A key has the same value after the sort, sorted.
pub get_field-sort :
    (i : String) (fs : Fields) → get_field i (sort_fields fs) ≡ sort_option (get_field i fs)
unfolding get_field sort_fields
get_field-sort i end = refl
get_field-sort i (field k v fs) = elim (Bool-cases (str_eq k i)) [
  | inl e ↦ rw (get_field-place i k (sort_plain v) (sort_fields fs), e) refl
  | inr e ↦ rw (get_field-place i k (sort_plain v) (sort_fields fs), e) (get_field-sort i fs)
]
