-- ===== src/Compute/Resources.antt =====
-- src/lab_commons/compute/model.py: `Resources` and `total`. An amount is a number of units of
-- 2^-30: amounts that are multiples of it below 2^23 are doubles that Python adds and subtracts
-- exactly, and `mem_gb` in this unit is the memory in bytes. Where Python iterates over a set of
-- names in no particular order the model takes one order.
use lab_commons.Commons.{
  ℕ, ◌+◌, ◌-◌, ◌^◌, String, Bool, true, false, not, List, [], ◌∷◌, map, ltb, if◌then◌else◌, Result,
  ok, Error, ◌>>◌, guard, all, keep,
}
use lab_commons.Commons.Int.{ℤ, pos, negsuc}
use lab_commons.Commons.Dict.{Dict, lookup, elem, keys, default}
use Prim.Native.String.{compare}
use Prim.Native.Nat.{Ordering}

-- One whole of any resource: a core, a gigabyte, a seat.
abbrev pub whole : ℕ
whole = 2 ^ 30

-- The vector's dictionary.
abbrev pub Resources : Type 0
Resources = Dict ℕ

-- `vector[name]` and `mapping.get(name, 0.0)`
unfoldable pub amount : String → Dict ℕ → ℕ
unfolding lookup
amount k d = default 0 (lookup k d)

abbrev positive : String × ℕ → Bool
positive i = ltb 0 i.1

-- `Resources(amounts)` of amounts that are not negative: a zero is not kept.
unfoldable pub of_amounts : Dict ℕ → Resources
of_amounts d = keep positive d

abbrev is_pos : ℤ → Bool
is_pos (pos n) = true
is_pos (negsuc n) = false

abbrev magnitude : ℤ → ℕ
magnitude (pos n) = n
magnitude (negsuc n) = 0

-- `Resources(amounts)`: a negative amount is refused.
unfoldable pub make_resources : Dict ℤ → Result Resources
unfolding of_amounts
make_resources d = do
  guard (all (λ i. is_pos i.1) d) Error.value_error
  ok (of_amounts (map (λ i. (i.0, magnitude i.1)) d))

-- A dictionary comprehension over names.
abbrev pub tabulate : (String → ℕ) → List String → Dict ℕ
tabulate f [] = []
tabulate f (k ∷ ks) = (k, f k) ∷ tabulate f ks

-- `a | b`
abbrev pub union : List String → List String → List String
union [] ks = ks
union (j ∷ js) ks = let rest = union js ks in if elem j rest then rest else j ∷ rest

-- `a - b`
abbrev pub minus : List String → List String → List String
minus js ks = keep (λ j. not (elem j ks)) js

-- `a + b`
unfoldable pub add : Resources → Dict ℕ → Resources
unfolding of_amounts amount
add a b = of_amounts (tabulate (λ k. amount k a + amount k b) (union (keys a) (keys b)))

-- `a - b`: floored at zero.
unfoldable pub sub : Resources → Dict ℕ → Resources
unfolding of_amounts amount
sub a b = of_amounts (tabulate (λ k. amount k a - amount k b) (keys a))

abbrev pub str_leb : String → String → Bool
str_leb a b = elim (compare a b) [ Ordering.gt ↦ false | _ ↦ true ]

abbrev pub place : String → List String → List String
place k [] = k ∷ []
place k (j ∷ js) = if str_leb k j then k ∷ j ∷ js else j ∷ place k js

-- `sorted(names)`: by code points.
unfoldable pub sorted : List String → List String
sorted [] = []
sorted (k ∷ ks) = place k (sorted ks)

-- `a.short_of(b)`
unfoldable pub short_of : Resources → Dict ℕ → List String
unfolding sorted amount
short_of a b = sorted (keep (λ k. ltb (amount k b) (amount k a)) (keys a))

-- `a <= b`
unfoldable pub le : Resources → Dict ℕ → Bool
unfolding short_of
le a b = elim (short_of a b) [ [] ↦ true | _ ∷ _ ↦ false ]

abbrev pub add_all : Resources → List (Dict ℕ) → Resources
add_all summed [] = summed
add_all summed (v ∷ vs) = add_all (add summed v) vs

-- `total(vectors)`
unfoldable pub total : List (Dict ℕ) → Resources
unfolding add
total vectors = add_all [] vectors
