-- ===== src/Compute/Unique.antt =====
-- Dictionaries of amounts with each name once (src/lab_commons/compute/model.py): lemmas.
use lab_commons.Commons.{
  ℕ, zero, suc, String, ◌≡◌, refl, false, ◌||◌, [], ◌∷◌, arith, str_eq, eq_iff,
}
use lab_commons.Commons.Dict.{Dict, insert, elem, keys}
use lab_commons.Compute.Resources.{amount, of_amounts}
use lab_commons.Compute.Vectors.{amount_absent}

abbrev pub IsUnique : Dict ℕ → Type 0
IsUnique [] = Unit
IsUnique ((k, n) ∷ d) = (elem k (keys d) ≡ false) × IsUnique d

-- Dropping the zeros of a dictionary keeps its amounts.
pub amount-of_amounts :
    (k : String) (d : Dict ℕ) → IsUnique d → amount k (of_amounts d) ≡ amount k d
unfolding amount of_amounts
amount-of_amounts k [] h = refl
amount-of_amounts k ((j, zero) ∷ d) h =
    ground (arith, amount-of_amounts k d h.1, eq_iff j k, amount_absent j d)
amount-of_amounts k ((j, suc n) ∷ d) h = ground (arith, amount-of_amounts k d h.1)

pub elem-insert :
    (k j : String) (n : ℕ) (d : Dict ℕ)
    → elem k (keys (insert j n d)) ≡ (str_eq j k || elem k (keys d))
unfolding insert
elem-insert k j n [] = refl
elem-insert k j n ((i, m) ∷ d) =
    ground (arith, elem-insert k j n d, eq_iff i j, eq_iff i k, eq_iff j k)

pub IsUnique-insert : (k : String) (n : ℕ) (d : Dict ℕ) → IsUnique d → IsUnique (insert k n d)
unfolding insert
IsUnique-insert k n [] h = (refl, tt)
IsUnique-insert k n ((j, m) ∷ d) h =
    ground (arith, IsUnique-insert k n d h.1, elem-insert j k n d, eq_iff j k, eq_iff k j)
