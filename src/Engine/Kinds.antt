-- ===== src/Engine/Kinds.antt =====
-- src/lab_commons/resources/model.py: `Kind`, `KINDS`, `kind_of`, `Claim` and `Provider`. Whether a name is
-- a tool that the family checks or the machine file provides is the argument `is_tool`.
use lab_commons.Commons.{
  ℕ, String, Bool, true, false, ◌&&◌, ◌||◌, List, [], ◌∷◌, all, if◌then◌else◌, Result, ok, err,
  Error, ◌>>=◌, ◌>>◌, guard,
}
use lab_commons.Commons.Int.{ℤ, pos, negsuc}
use lab_commons.Commons.Dict.{Dict, elem, keys}
use lab_commons.Compute.Resources.{Resources, make_resources}
use lab_commons.Compute.Admission.{Supply}
use lab_commons.Box.Demand.{wall_is_bounded}
use lab_commons.Box.External.{is_lent_name}

pub data Kind : Type 0 where
  occupancy consumable persistent : Kind

-- The names of `KINDS`, kind by kind.
abbrev pub occupancy_names : List String
occupancy_names = "cpu" ∷ "mem_gb" ∷ "windows" ∷ "linux" ∷ "macos" ∷ []

abbrev pub consumable_names : List String
consumable_names = "tokens" ∷ "core_h" ∷ "forge_requests" ∷ "submits" ∷ "wall_h" ∷ "money" ∷ []

abbrev pub persistent_names : List String
persistent_names = "disk_gb" ∷ "files" ∷ "venvs" ∷ "worktrees" ∷ []

-- A claim: its demand, its wall time in seconds, and what names it.
pub record EngineClaim : Type 0 where
  pub demand : Resources
  pub wall_s : ℕ
  pub what : String
  pub key : String

-- A provider: the names that it supplies, and what it measures on a scope.
pub record Provider : Type 0 where
  pub names : List String
  pub measure : String → Supply

abbrev is_ok {ℓ} : {A : Type ℓ} → Result A → Bool
is_ok (ok a) = true
is_ok (err raised) = false

abbrev some_name : Resources → Bool
some_name [] = false
some_name (i ∷ d) = true

abbrev seconds : ℤ → ℕ
seconds (pos n) = n
seconds (negsuc n) = 0

module _ (is_tool : String → Bool) where
  -- `kind_of(name)`
  unfoldable pub kind_of : String → Result Kind
  unfolding is_lent_name
  kind_of name =
      if elem name occupancy_names
      then ok Kind.occupancy
      else if elem name consumable_names
      then ok Kind.consumable
      else if elem name persistent_names
      then ok Kind.persistent
      else if is_lent_name name || is_tool name
      then ok Kind.occupancy
      else err Error.value_error

  -- `Claim(demand, wall_s, what, key)`
  unfoldable pub make_claim : Dict ℤ → ℤ → String → String → Result EngineClaim
  unfolding make_resources kind_of wall_is_bounded
  make_claim demand wall_s what key = do
    asked ← make_resources demand
    guard (some_name asked && wall_is_bounded wall_s) Error.value_error
    guard (all (λ name. is_ok (kind_of name)) (keys asked)) Error.value_error
    ok (record { demand = asked; wall_s = seconds wall_s; what = what; key = key })
