-- ===== src/Compute/Samples.antt =====
-- A machine, its running jobs, two graphs of units and a job that asks, and the theorems of the rule applied to them.
use lab_commons.Commons.{
  err, Error, ℕ, ◌*◌, String, ◌≡◌, refl, true, false, List, [], ◌∷◌, ◌⊎◌, ◌↔◌, ok,
}
use lab_commons.Commons.Dict.{Dict, elem, keys}
use lab_commons.Compute.Resources.{whole, of_amounts, sub, total, sorted}
use lab_commons.Compute.Admission.{Supply, Job, admit, present}
use lab_commons.Compute.Rule.{admit_iff, HasNeeds, Fits}
use lab_commons.Compute.Graph.{Node, parameter, output_of, order, dependants}
use lab_commons.Compute.GraphDependants.{Depends, dependants_lem}
use lab_commons.Compute.GraphOrder.{runs_after, order-ends, order-runs_after}

-- Four cores, one of them taken, and a licence that only the list names.
abbrev machine : Supply
machine = record {
  scope = "machine:m";
  resources = ("cpu", 4 * whole) ∷ [];
  listed = "cpu" ∷ "jmag" ∷ [];
}

abbrev running : List (Dict ℕ)
running = (("cpu", 1 * whole) ∷ []) ∷ []

abbrev job : Job
job = record { repo = "r"; sha = "s"; producer = "p"; needs = "jmag" ∷ [] }

abbrev alien : Job
alien = record { repo = "r"; sha = "s"; producer = "p"; needs = "maxwell" ∷ [] }

three_fit : (admit job (("cpu", 3 * whole) ∷ []) machine running).admitted ≡ true
unfolding admit of_amounts sub total
three_fit = refl

four_lack : (admit job (("cpu", 4 * whole) ∷ []) machine running).lacking ≡ "cpu" ∷ []
unfolding admit of_amounts sub total
four_lack = refl

admit_iff_example :
    ((admit job (("cpu", 3 * whole) ∷ []) machine running).admitted ≡ true)
    ↔ (HasNeeds job machine × Fits (("cpu", 3 * whole) ∷ []) machine running)
admit_iff_example = admit_iff job (("cpu", 3 * whole) ∷ []) machine running

four_refused : (admit job (("cpu", 4 * whole) ∷ []) machine running).admitted ≡ false
unfolding admit of_amounts sub total
four_refused = refl

maxwell_absent : elem "maxwell" (present machine) ≡ false
unfolding present
maxwell_absent = refl

-- A mesh, and a solution that reads it.
abbrev mesh : Node
mesh = record { inputs = ("speed", parameter) ∷ []; outputs = "grid" ∷ [] }

abbrev solve : Node
solve = record { inputs = ("grid", output_of "mesh" "grid") ∷ []; outputs = "field" ∷ [] }

abbrev chain : Dict Node
chain = ("solve", solve) ∷ ("mesh", mesh) ∷ []

abbrev circle : Dict Node
circle =
    ("solve", record { inputs = ("grid", output_of "solve" "field") ∷ []; outputs = "field" ∷ [] })
    ∷ []

chain_ordered : order chain ≡ ok ("mesh" ∷ "solve" ∷ [])
unfolding order sorted
chain_ordered = refl

circle_refused : order circle ≡ err Error.value_error
unfolding order sorted
circle_refused = refl

order-ends_example :
    ((ns : List String) × (order circle ≡ ok ns)) ⊎ (order circle ≡ err Error.value_error)
order-ends_example = order-ends circle

order-runs_after_example :
    (runs_after chain [] ("mesh" ∷ "solve" ∷ []) ≡ true)
    × ((k : String) → elem k ("mesh" ∷ "solve" ∷ []) ≡ elem k (keys chain))
order-runs_after_example =
    order-runs_after chain ("mesh" ∷ "solve" ∷ []) (refl, (refl, tt)) chain_ordered

-- A report of the solution's field.
abbrev report : Node
report = record { inputs = ("field", output_of "solve" "field") ∷ []; outputs = [] }

mesh_dependants : dependants (("report", report) ∷ chain) "mesh" ≡ ok ("solve" ∷ "report" ∷ [])
unfolding dependants
mesh_dependants = refl

dependants_lem_example :
    (all : List String) × (dependants (("report", report) ∷ chain) "mesh" ≡ ok all)
    × ((n : String) → (elem n all ≡ true) ↔ Depends (("report", report) ∷ chain) "mesh" n)
dependants_lem_example = dependants_lem (("report", report) ∷ chain) "mesh"
