-- ===== src/Dimensions/TableLaws.antt =====
-- The check of the table of src/lab_commons/resources/dimensions.py, dimension by dimension.
use lab_commons.Commons.{
  ℕ, ◌≡◌, refl, Bool, true, false, Option, none, some, List, [], ◌∷◌, ◌↔◌, arith, ok, All,
  >>=-eq-ok,
}
use lab_commons.Dimensions.Table.{
  Dimension, Enforcement, unenforced, conservative_floor, check_dimension, check_dimension_table,
}

abbrev pub is_enforced : Enforcement → Bool
is_enforced unenforced = false
is_enforced _ = true

abbrev pub has_value : Option ℕ → Bool
has_value none = false
has_value (some n) = true

-- A dimension has a conservative value exactly when something enforces it.
abbrev pub IsValued : Dimension → Type 0
IsValued d = is_enforced d.enforcement ≡ has_value d.conservative

check_dimension_iff : (d : Dimension) → (check_dimension d ≡ ok tt) ↔ IsValued d
unfolding check_dimension conservative_floor
check_dimension_iff d = (λ h. ground arith, λ h. ground arith)

-- The check of the table passes exactly when, of every dimension, a value is named if something enforces
-- it and none if nothing does.
pub check_dimension_table_iff :
    (ds : List Dimension) → (check_dimension_table ds ≡ ok tt) ↔ All IsValued ds
unfolding check_dimension_table
check_dimension_table_iff [] = (λ h. tt, λ h. refl)
check_dimension_table_iff (d ∷ ds) = (
  λ h.
      let (u, e, r) = >>=-eq-ok (check_dimension d) _ h in
      ((check_dimension_iff d).0 e, (check_dimension_table_iff ds).0 r),
  λ (v, vs). rw ((check_dimension_iff d).1 v) ((check_dimension_table_iff ds).1 vs),
)
