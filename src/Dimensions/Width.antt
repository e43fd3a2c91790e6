-- ===== src/Dimensions/Width.antt =====
-- src/lab_commons/width.py: how many copies of a demand fit. Amounts are integers of one unit.
use lab_commons.Commons.{
  ℕ, suc, ◌/◌, not, Option, none, some, List, [], ◌∷◌, map, min, any, if◌then◌else◌, Result, ok,
  err, Error,
}
use lab_commons.Commons.Int.{ℤ, pos, negsuc}
use lab_commons.Commons.Dict.{Dict, lookup, elem}
use lab_commons.Dimensions.Table.{Dimension, dimensions}

-- `max(0, int(have // need))`, of a positive need.
abbrev pub copies : ℤ → ℕ → ℕ
copies (pos h) q = h / suc q
copies (negsuc h) q = 0

abbrev pub add_count : Option ℤ → ℕ → List ℕ → List ℕ
add_count none q counts = counts
add_count (some have) q counts = copies have q ∷ counts

-- The loop: `none` where it returns 0 at once.
unfoldable pub counts_of : Dict (Option ℤ) → Dict ℤ → Option (List ℕ)
unfolding lookup
counts_of capacity [] = some []
counts_of capacity ((name, pos (suc q)) ∷ demand) =
    let rest = counts_of capacity demand in
    elim (lookup name capacity) [
      | none ↦ none
      | some have ↦ elim rest [ none ↦ none | some counts ↦ some (add_count have q counts) ]
    ]
counts_of capacity (_ ∷ demand) = counts_of capacity demand

abbrev pub least : ℕ → List ℕ → ℕ
least c [] = c
least c (d ∷ counts) = min c (least d counts)

-- `fits(capacity, demand)`: a capacity of `none` has no ceiling.
unfoldable pub fits : Dict (Option ℤ) → Dict ℤ → Result ℕ
unfolding counts_of
fits capacity demand =
    if any (λ i. not (elem i.0 (map (λ (d : Dimension). d.name) dimensions))) demand
    then err Error.value_error
    else elim (counts_of capacity demand) [
      | none ↦ ok 0
      | some [] ↦ err Error.value_error
      | some (c ∷ counts) ↦ ok (least c counts)
    ]
