-- ===== src/Compute/Admission.antt =====
-- src/lab_commons/compute/admission.py, the `Supply` and `Job` of src/lab_commons/compute/model.py,
-- and `admits` of src/lab_commons/resources/engine.py, the one door onto the rule.
use lab_commons.Commons.{
  ℕ, String, Bool, true, false, List, [], ◌∷◌, map, Result, ok, Error, ◌>>◌, guard, all,
}
use lab_commons.Commons.Dict.{Dict, elem, keys}
use lab_commons.Compute.Resources.{
  Resources, amount, of_amounts, union, minus, sub, sorted, short_of, le, total,
}

pub record Supply : Type 0 where
  pub scope : String
  pub resources : Resources
  pub listed : List String

-- `listed or names`
abbrev pub or_names : List String → List String → List String
or_names [] names = names
or_names (k ∷ ks) names = k ∷ ks

-- `supply.present`
unfoldable pub present : Supply → List String
present s = or_names s.listed (keys s.resources)

-- `Supply(scope, resources, listed)`: every counted name is present.
unfoldable pub make_supply : String → Resources → List String → Result Supply
unfolding present
make_supply scope resources listed = do
  let s : Supply = record { scope = scope; resources = resources; listed = listed }
  guard (all (λ k. elem k (present s)) (keys resources)) Error.value_error
  ok s

pub record Job : Type 0 where
  pub repo : String
  pub sha : String
  pub producer : String
  pub needs : List String

-- `numbers` are (name, asked, free).
pub record Admission : Type 0 where
  pub admitted : Bool
  pub lacking : List String
  pub numbers : List (String × ℕ × ℕ)

abbrev pub granted : Admission
granted = record { admitted = true; lacking = []; numbers = [] }

-- The second half of `admit`: the demand against what is free.
unfoldable pub fit : Resources → Resources → Admission
unfolding le amount
fit want free = elim (le want free) [
  | true ↦ granted
  | false ↦ record {
    admitted = false;
    lacking = short_of want free;
    numbers = map (λ k. (k, amount k want, amount k free)) (short_of want free);
  }
]

abbrev pub refuse_missing : List String → Admission → Admission
refuse_missing [] verdict = verdict
refuse_missing (k ∷ ks) verdict = record { admitted = false; lacking = k ∷ ks; numbers = [] }

-- `admit(job, demand, supply, running=running)`
unfoldable pub admit : Job → Dict ℕ → Supply → List (Dict ℕ) → Admission
unfolding fit present
admit job demand supply running =
    refuse_missing (sorted (minus job.needs (present supply)))
      (fit (of_amounts demand) (sub supply.resources (total running)))

-- `admits(free, demand, present=present, needs=needs, running=running, what=what)`: a missing
-- `present` is the empty list. The supply is written as its record; its check is `make_supply`.
unfoldable pub counted_supply : Dict ℕ → List String → Supply
unfolding of_amounts
counted_supply free listed =
    let counted = of_amounts free in
    record { scope = ""; resources = counted; listed = union (keys counted) listed }

unfoldable pub admits :
    Dict ℕ → Dict ℕ → List String → List String → List (Dict ℕ) → String → Admission
unfolding admit counted_supply
admits free demand listed needs running what =
    admit (record { repo = ""; sha = ""; producer = what; needs = needs }) demand
      (counted_supply free listed) running
