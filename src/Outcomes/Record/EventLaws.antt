-- ===== src/Outcomes/Record/EventLaws.antt =====
-- The upgrade of older lines, src/lab_commons/outcomes/record.py.
use lab_commons.Commons.{
  ℕ, zero, suc, ◌+◌, String, ◌≡◌, refl, ◌∙◌, ap, Bool, true, false, ◌||◌, some, arith, str_eq,
  eq_iff, if◌then◌else◌, inl, inr, Bool-cases,
}
use lab_commons.Commons.Int.{pos}
use lab_commons.Outcomes.Plain.{Plain, num, Fields, end, field, int, num_eq, get_field}
use lab_commons.Outcomes.Record.Event.{
  set_field, v1_to_v2, v2_to_v3, is_schema, names_schema, upgrade, upgrade_fuel, schema_version,
}

get-set_field :
    (k j : String) (v : Plain) (fs : Fields)
    → get_field j (set_field k v fs) ≡ (if str_eq k j then some v else get_field j fs)
unfolding get_field set_field
get-set_field k j v end = refl
get-set_field k j v (field i w fs) =
    ground (arith, eq_iff k j, eq_iff i k, eq_iff i j, get-set_field k j v fs)

get-v1_to_v2 :
    (k : String) (raw : Fields)
    → str_eq "schema" k ≡ false
    → get_field k (v1_to_v2 raw) ≡ get_field k raw
unfolding v1_to_v2
get-v1_to_v2 k raw h = get-set_field "schema" k (num (int (pos 2))) raw ∙ rw h

get-v2_to_v3 :
    (k : String) (raw : Fields)
    → str_eq "schema" k ≡ false
    → get_field k (v2_to_v3 raw) ≡ get_field k raw
unfolding v2_to_v3
get-v2_to_v3 k raw h = get-set_field "schema" k (num (int (pos 3))) raw ∙ rw h

schema-v1_to_v2 : (raw : Fields) → get_field "schema" (v1_to_v2 raw) ≡ some (num (int (pos 2)))
unfolding v1_to_v2
schema-v1_to_v2 raw = get-set_field "schema" "schema" (num (int (pos 2))) raw

schema-v2_to_v3 : (raw : Fields) → get_field "schema" (v2_to_v3 raw) ≡ some (num (int (pos 3)))
unfolding v2_to_v3
schema-v2_to_v3 raw = get-set_field "schema" "schema" (num (int (pos 3))) raw

-- The upgrade of a line touches no field but its version, whatever the fuel.
get-upgrade :
    (fuel : ℕ) (k : String) (raw : Fields)
    → str_eq "schema" k ≡ false
    → get_field k (upgrade fuel raw) ≡ get_field k raw
unfolding upgrade
get-upgrade zero k raw h = refl
get-upgrade (suc fuel) k raw h = elim (Bool-cases (is_schema 1 raw)) [
  | inl one ↦ rw one (get-upgrade fuel k (v1_to_v2 raw) h ∙ get-v1_to_v2 k raw h)
  | inr not_one ↦ elim (Bool-cases (is_schema 2 raw)) [
    | inl two ↦ rw (not_one, two) (get-upgrade fuel k (v2_to_v3 raw) h ∙ get-v2_to_v3 k raw h)
    | inr not_two ↦ rw (not_one, not_two)
  ]
]

is_schema-v1_to_v2 :
    (raw : Fields) → (is_schema 1 (v1_to_v2 raw) ≡ false) × (is_schema 2 (v1_to_v2 raw) ≡ true)
unfolding num_eq
is_schema-v1_to_v2 raw =
    (ap (names_schema 1) (schema-v1_to_v2 raw), ap (names_schema 2) (schema-v1_to_v2 raw))

is_schema-v2_to_v3 :
    (raw : Fields)
    → (is_schema 1 (v2_to_v3 raw) ≡ false)
      × (is_schema 2 (v2_to_v3 raw) ≡ false)
      × (is_schema 3 (v2_to_v3 raw) ≡ true)
unfolding num_eq
is_schema-v2_to_v3 raw = (
  ap (names_schema 1) (schema-v2_to_v3 raw),
  ap (names_schema 2) (schema-v2_to_v3 raw),
  ap (names_schema 3) (schema-v2_to_v3 raw),
)

abbrev pub is_old : Fields → Bool
is_old raw = is_schema 1 raw || is_schema 2 raw

pub upgrade-current :
    (raw : Fields)
    → is_schema 1 raw ≡ false
    → is_schema 2 raw ≡ false
    → (fuel : ℕ) → upgrade fuel raw ≡ raw
unfolding upgrade
upgrade-current raw h k zero = refl
upgrade-current raw h k (suc fuel) = rw (h, k)

upgrade-from_2 :
    (fuel : ℕ) (raw : Fields)
    → is_schema 1 raw ≡ false
    → is_schema 2 raw ≡ true
    → upgrade (suc fuel) raw ≡ v2_to_v3 raw
unfolding upgrade
upgrade-from_2 fuel raw h k =
    let now = is_schema-v2_to_v3 raw in rw (h, k) (upgrade-current (v2_to_v3 raw) now.0 now.1 fuel)

upgrade-from_1 :
    (fuel : ℕ) (raw : Fields)
    → is_schema 1 raw ≡ true
    → upgrade (suc (suc fuel)) raw ≡ v2_to_v3 (v1_to_v2 raw)
unfolding upgrade
upgrade-from_1 fuel raw h =
    let now = is_schema-v1_to_v2 raw in rw h (upgrade-from_2 fuel (v1_to_v2 raw) now.0 now.1)

-- What an old line is upgraded to, the loop being done after two rounds whatever fuel is left.
upgrade_old :
    (fuel : ℕ) (raw : Fields)
    → is_old raw ≡ true
    → is_schema schema_version (upgrade (suc (suc fuel)) raw) ≡ true
upgrade_old fuel raw h = elim (Bool-cases (is_schema 1 raw)) [
  | inl one ↦ rw (upgrade-from_1 fuel raw one) ((is_schema-v2_to_v3 (v1_to_v2 raw)).2)
  | inr not_one ↦
      rw (upgrade-from_2 (suc fuel) raw not_one (ground arith)) ((is_schema-v2_to_v3 raw).2)
]

-- A line of schema 1 or 2 comes out of the upgrade loop as one of the current schema, with every
-- other field as it was; the same for any more fuel than the two rounds that the model gives.
pub upgrade_lem :
    (fuel : ℕ) (raw : Fields)
    → is_old raw ≡ true
    → (is_schema schema_version (upgrade (upgrade_fuel + fuel) raw) ≡ true)
      × ((k : String)
          → str_eq "schema" k ≡ false
          → get_field k (upgrade (upgrade_fuel + fuel) raw) ≡ get_field k raw)
upgrade_lem fuel raw h =
    let e : upgrade_fuel + fuel ≡ suc (suc fuel) = omega arith in
    (rw e (upgrade_old fuel raw h), λ k ne. get-upgrade (upgrade_fuel + fuel) k raw ne)
