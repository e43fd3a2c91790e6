-- ===== src/Dimensions/Samples.antt =====
-- The declared dimensions, and a node of eight cores.
use lab_commons.Commons.{◌≡◌, refl, ◌↔◌, ◌≤◌, true, Option, none, some, [], ◌∷◌, ok}
use lab_commons.Commons.Int.{ℤ, pos}
use lab_commons.Commons.Dict.{Dict, lookup}
use lab_commons.Dimensions.Table.{dimensions, check_dimension_table, conservative_floor}
use lab_commons.Dimensions.Width.{fits}
use lab_commons.Dimensions.WidthLaws.{copies_fit, fits_iff}

table_passes : check_dimension_table dimensions ≡ ok tt
unfolding check_dimension_table conservative_floor
table_passes = refl

abbrev node : Dict (Option ℤ)
node = ("cpu", some (pos 8)) ∷ ("memory", none) ∷ []

abbrev task : Dict ℤ
task = ("cpu", pos 3) ∷ ("memory", pos 4) ∷ ("gpu", pos 0) ∷ []

two_fit : fits node task ≡ ok 2
unfolding fits lookup
two_fit = refl

fits_iff_example : (copies_fit node task 2 ≡ true) ↔ (2 ≤ 2)
fits_iff_example = fits_iff node task 2 two_fit 2
