-- ===== src/Compute/Vectors.antt =====
-- The amounts of the operations on resource vectors of src/lab_commons/compute/model.py.
use lab_commons.Commons.{
  ℕ, ◌+◌, ◌-◌, ◌≤◌, String, ◌≡◌, refl, sym, ap, ◌∙◌, Bool, true, false, ◌&&◌, ◌||◌, List, [], ◌∷◌,
  ◌↔◌, arith, ltb, ltb→ge, ge→ltb, str_eq, eq_iff, eq_refl, if◌then◌else◌, keep, sum_of,
}
use lab_commons.Commons.Dict.{Dict, elem, keys}
use lab_commons.Compute.Resources.{
  amount, of_amounts, tabulate, union, add, sub, place, sorted, short_of, le, add_all, total,
}

-- Keeping the positive entries of a table keeps its amounts.
amount-tabulate :
    (f : String → ℕ) (k : String) (ks : List String)
    → amount k (of_amounts (tabulate f ks)) ≡ (if elem k ks then f k else 0)
unfolding amount of_amounts
amount-tabulate f k [] = refl
amount-tabulate f k (j ∷ ks) = ground (arith, eq_iff j k, amount-tabulate f k ks)

pub elem-union :
    (k : String) (js ks : List String) → elem k (union js ks) ≡ (elem k js || elem k ks)
elem-union k [] ks = refl
elem-union k (j ∷ js) ks = ground (arith, eq_iff j k, elem-union k js ks)

-- A name that is not among the keys reads 0.
pub amount_absent : (k : String) (d : Dict ℕ) → elem k (keys d) ≡ false → amount k d ≡ 0
unfolding amount
amount_absent k [] h = refl
amount_absent k ((j, n) ∷ d) h = ground (arith, amount_absent k d)

pub amount-add : (k : String) (a b : Dict ℕ) → amount k (add a b) ≡ amount k a + amount k b
unfolding add
amount-add k a b = ground (
  arith,
  amount-tabulate (λ j. amount j a + amount j b) k (union (keys a) (keys b)),
  elem-union k (keys a) (keys b),
  amount_absent k a,
  amount_absent k b,
)

pub amount-sub : (k : String) (a b : Dict ℕ) → amount k (sub a b) ≡ amount k a - amount k b
unfolding sub
amount-sub k a b =
    ground (arith, amount-tabulate (λ j. amount j a - amount j b) k (keys a), amount_absent k a)

amount-add_all :
    (k : String) (a : Dict ℕ) (vs : List (Dict ℕ))
    → amount k (add_all a vs) ≡ amount k a + sum_of (amount k) vs
amount-add_all k a [] = omega arith
amount-add_all k a (v ∷ vs) = omega (arith, amount-add_all k (add a v) vs, amount-add k a v)

amount-nil : (k : String) → amount k [] ≡ 0
unfolding amount
amount-nil k = refl

pub amount-total : (k : String) (vs : List (Dict ℕ)) → amount k (total vs) ≡ sum_of (amount k) vs
unfolding total
amount-total k vs = omega (arith, amount-add_all k [] vs, amount-nil k)

elem-place : (k j : String) (ks : List String) → elem k (place j ks) ≡ (str_eq j k || elem k ks)
elem-place k j [] = refl
elem-place k j (i ∷ ks) = ground (arith, elem-place k j ks)

pub elem-sorted : (k : String) (ks : List String) → elem k (sorted ks) ≡ elem k ks
unfolding sorted
elem-sorted k [] = refl
elem-sorted k (j ∷ ks) = elem-place k j (sorted ks) ∙ ap (λ b. str_eq j k || b) (elem-sorted k ks)

pub elem-keep :
    (p : String → Bool) (k : String) (ks : List String) → elem k (keep p ks) ≡ (elem k ks && p k)
elem-keep p k [] = refl
elem-keep p k (j ∷ ks) = ground (arith, eq_iff j k, elem-keep p k ks)

-- A vector is short of another in exactly the names where it holds more.
pub elem-short_of :
    (k : String) (a b : Dict ℕ) → elem k (short_of a b) ≡ ltb (amount k b) (amount k a)
unfolding short_of
elem-short_of k a b = ground (
  arith,
  elem-sorted k (keep (λ j. ltb (amount j b) (amount j a)) (keys a)),
  elem-keep (λ j. ltb (amount j b) (amount j a)) k (keys a),
  amount_absent k a,
)

abbrev is_nil : List String → Bool
is_nil [] = true
is_nil (_ ∷ _) = false

not-elem-nil : (k : String) (ks : List String) → is_nil ks ≡ true → elem k ks ≡ false
not-elem-nil k [] h = refl
not-elem-nil k (j ∷ ks) h = cc

nil_of_none : (ks : List String) → ((k : String) → elem k ks ≡ false) → is_nil ks ≡ true
nil_of_none [] h = refl
nil_of_none (j ∷ ks) h = ground (arith, h j, eq_refl j)

-- One vector fits in another when it does in every name.
pub le_iff : (a b : Dict ℕ) → (le a b ≡ true) ↔ ((k : String) → amount k a ≤ amount k b)
unfolding le
le_iff a b = (
  λ h k.
      ltb→ge (amount k b) (amount k a)
        (sym (elem-short_of k a b) ∙ not-elem-nil k (short_of a b) (le-is_nil ∙ h)),
  λ h.
      sym le-is_nil
      ∙ nil_of_none (short_of a b)
          (λ k. elem-short_of k a b ∙ ge→ltb (amount k b) (amount k a) (h k)),
)
  where
    le-is_nil : is_nil (short_of a b) ≡ le a b
    le-is_nil = ground arith
