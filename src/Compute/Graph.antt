-- ===== src/Compute/Graph.antt =====
-- src/lab_commons/compute/graph.py: the order of a graph of units. Of a unit (compute/unit.py) the graph
-- reads its inputs and its outputs; an input is a file, a parameter, or another unit's output.
use lab_commons.Commons.{
  ℕ, zero, suc, String, Bool, true, false, not, none, some, List, [], ◌∷◌, ◌++◌, all, keep, Result,
  ok, err, Error, ◌>>=◌, ◌>>◌, guard, length, any, ◌&&◌, ◌+◌,
}
use lab_commons.Commons.Dict.{Dict, lookup, elem, keys}
use lab_commons.Compute.Resources.{sorted}

pub data Input : Type 0 where
  file_input : Input
  parameter : Input
  output_of : String → String → Input

pub record Node : Type 0 where
  pub inputs : Dict Input
  pub outputs : List String

abbrev pub reads_of : Dict Input → List String
reads_of [] = []
reads_of ((k, output_of name out) ∷ inputs) = name ∷ reads_of inputs
reads_of (_ ∷ inputs) = reads_of inputs

-- `unit.upstream`; a name read twice is listed twice.
unfoldable pub upstream : Node → List String
upstream u = reads_of u.inputs

abbrev names_output : Dict Node → Input → Bool
names_output units (output_of name out) = elim (lookup name units) [
  | none ↦ false
  | some u ↦ elem out u.outputs
]
names_output units _ = true

-- No line of the list `bad` of `Graph(units)`.
unfoldable pub has_sound_edges : Dict Node → Bool
unfolding lookup
has_sound_edges units = all (λ u. all (λ i. names_output units i.1) u.1.inputs) units

-- `u.upstream <= set(done)`
abbrev pub is_ready : List String → String × Node → Bool
is_ready done u = all (λ k. elem k done) (upstream u.1)

abbrev pub ready_names : List String → Dict Node → List String
ready_names done left = sorted (keys (keep (is_ready done) left))

-- `del left[n]` of every ready name.
abbrev pub without : List String → Dict Node → Dict Node
without names left = keep (λ u. not (elem u.0 names)) left

abbrev pub next_round : List String → Result (List String) → Result (List String)
next_round [] rest = err Error.value_error
next_round (k ∷ ready) rest = rest

-- The `while` loop, with as many rounds as there are units; running out of them is `runtime_error`,
-- which the source has no such end for.
unfoldable pub order_from : ℕ → List String → Dict Node → Result (List String)
unfolding upstream
order_from fuel done [] = ok done
order_from zero done (u ∷ left) = err Error.runtime_error
order_from (suc fuel) done (u ∷ left) =
    let ready = ready_names done (u ∷ left) in
    let rest = order_from fuel (done ++ ready) (without ready (u ∷ left)) in next_round ready rest

-- `graph.order()`
unfoldable pub order : Dict Node → Result (List String)
unfolding order_from
order units = order_from (length units) [] units

-- `Graph(units)`
unfoldable pub make_graph : Dict Node → Result (Dict Node)
unfolding has_sound_edges order
make_graph units = do guard (has_sound_edges units) Error.value_error; ran ← order units; ok units

-- `graph.with_unit(name, unit)`
unfoldable pub with_unit : Dict Node → String → Node → Result (Dict Node)
unfolding make_graph
with_unit units name u = do
  guard (not (elem name (keys units))) Error.value_error
  make_graph (units ++ (name, u) ∷ [])

-- `u.upstream & names`, whether it has an element.
abbrev pub reads_any : List String → Node → Bool
reads_any names u = any (λ k. elem k names) (upstream u)

-- The next frontier: a set, listed in the order of the units.
abbrev pub next_frontier : Dict Node → List String → List String → List String
next_frontier units frontier found =
    keys (keep (λ u. reads_any frontier u.1 && not (elem u.0 found)) units)

-- The `while` loop of `dependants`; running out of rounds is `runtime_error`, as in `order_from`.
unfoldable pub dependants_from : ℕ → Dict Node → List String → List String → Result (List String)
unfolding upstream
dependants_from fuel units [] found = ok found
dependants_from zero units (k ∷ frontier) found = err Error.runtime_error
dependants_from (suc fuel) units (k ∷ frontier) found =
    let next = next_frontier units (k ∷ frontier) found in
    dependants_from fuel units next (found ++ next)

-- `graph.dependants(name)`, with one round more than there are units.
unfoldable pub dependants : Dict Node → String → Result (List String)
unfolding dependants_from
dependants units name = dependants_from (length units + 1) units (name ∷ []) []
