-- ===== src/Hpc/Round/Growth.antt =====
-- src/lab_commons/hpc/gather.py: `grown_after` and `oom_bounded`. A shard's state is its Slurm word; a growth
-- is a natural number, as it starts at one and is doubled.
use lab_commons.Commons.{
  ℕ, suc, ◌+◌, ◌*◌, String, Bool, not, ◌&&◌, ◌||◌, Option, none, some, List, [], ◌∷◌, ◌++◌, str_eq,
  ltb, keep, if◌then◌else◌, Result, ok, err, Error, ◌>>=◌,
}
use lab_commons.Commons.Dict.{Dict, elem, lookup, insert, default, keys}
use lab_commons.Outcomes.Status.{out_of_memory}
use lab_commons.Outcomes.Plain.{Fields}
use lab_commons.Hpc.Round.Measured.{oom_growth, file_of, distinct, remove_all}
use lab_commons.Hpc.Round.Losses.{loss_cell}

-- `OOM_ROUNDS`
abbrev pub oom_rounds : ℕ
oom_rounds = 3

-- What the loop of `grown_after` collects: the ids that a kill cut, and those that finished.
pub record Marks : Type 0 where
  pub cut : List String
  pub finished : List String

abbrev pub first_of : List String → List String → List String
first_of [] cut = cut
first_of (n ∷ rest) cut = n ∷ cut

-- One turn of it, for an item whose shard ended in this state.
unfoldable pub mark_item : Bool → Dict Fields → String → List String → Marks → Marks
mark_item oom cells state ids m = record m {
  finished =
      if not (str_eq state "OUT_OF_MEMORY")
      then keep (λ n. elem n (keys cells)) ids ++ m.finished
      else m.finished;
  cut =
      if oom && not (str_eq state "TIMEOUT")
      then first_of (keep (λ n. not (elem n (keys cells))) ids) m.cut
      else m.cut;
}

-- The loop; an item without a shard is a key error.
unfoldable pub marks_of :
    Bool
    → Dict Fields
    → (ℕ → Option ℕ)
    → (ℕ → Option String)
    → ℕ
    → List (List String)
    → Marks
    → Result Marks
unfolding mark_item
marks_of oom cells shard_at states i [] m = ok m
marks_of oom cells shard_at states i (ids ∷ items) m = elim (shard_at i) [
  | none ↦ err Error.key_error
  | some n ↦
      marks_of oom cells shard_at states (suc i) items
        (mark_item oom cells (default "" (states n)) ids m)
]

abbrev pub is_known : List String → String → Bool
is_known taught node = elem node taught || elem (file_of node) taught

-- `after[node] = after.get(node, 1.0) * OOM_GROWTH` for each node.
unfoldable pub grow_all : List String → Dict ℕ → Dict ℕ
grow_all [] after = after
grow_all (n ∷ ns) after = grow_all ns (insert n (default 1 (lookup n after) * oom_growth) after)

-- The end of `grown_after`: what is dropped, and what grows, each id once.
unfoldable pub regrown : List String → Marks → Dict ℕ → Dict ℕ
unfolding grow_all remove_all distinct
regrown taught m grown =
    let known = keep (is_known taught) m.cut in
    let dropped = keep (λ n. not (elem n m.cut)) m.finished ++ known in
    grow_all (distinct (keep (λ n. not (elem n known)) m.cut)) (remove_all dropped grown)

-- `grown_after(items, cells, shard_of, states, grown, oom=oom, taught=taught)`
unfoldable pub grown_after :
    List (List String)
    → Dict Fields
    → (ℕ → Option ℕ)
    → (ℕ → Option String)
    → Dict ℕ
    → Bool
    → List String
    → Result (Dict ℕ)
unfolding marks_of regrown
grown_after items cells shard_at states grown oom taught = do
  m ← marks_of oom cells shard_at states 0 items (record { cut = []; finished = [] })
  ok (regrown taught m grown)

-- `ran_alone`: the lone ids of items in shards that were not killed for time.
unfoldable pub ran_alone :
    (ℕ → Option ℕ) → (ℕ → Option String) → ℕ → List (List String) → List String
ran_alone shard_at states i [] = []
ran_alone shard_at states i ((n ∷ []) ∷ items) =
    let rest = ran_alone shard_at states (suc i) items in
    elim (shard_at i) [
      | none ↦ rest
      | some k ↦ if str_eq (default "" (states k)) "TIMEOUT" then rest else n ∷ rest
    ]
ran_alone shard_at states i (_ ∷ items) = ran_alone shard_at states (suc i) items

-- What `oom_bounded` leaves: the groups that are kept, and `oom_lost` and `cells` of the state.
pub record Bounded : Type 0 where
  pub kept : List (List String)
  pub lost : Dict ℕ
  pub cells : Dict Fields

-- A lone id that ran alone, counted once more.
unfoldable pub count_lone : (ℕ → String) → String → Bounded → Bounded
unfolding loss_cell
count_lone told node b =
    let n = default 0 (lookup node b.lost) + 1 in
    let counted = record b { lost = insert node n b.lost } in
    if ltb n oom_rounds
    then record counted { kept = counted.kept ++ (node ∷ []) ∷ [] }
    else record counted {
      cells = insert node (loss_cell out_of_memory "out_of_memory" (told n)) b.cells;
    }

-- The loop of `oom_bounded`; the sentence of a reason is an argument, for its number.
unfoldable pub bound_groups : (ℕ → String) → List String → List (List String) → Bounded → Bounded
unfolding count_lone
bound_groups told alone [] b = b
bound_groups told alone ((node ∷ []) ∷ groups) b = bound_groups told alone groups (
    if elem node alone
    then count_lone told node b
    else record b { kept = b.kept ++ (node ∷ []) ∷ [] })
bound_groups told alone (group ∷ groups) b =
    bound_groups told alone groups (record b { kept = b.kept ++ group ∷ [] })

-- `oom_bounded(pending, items, state, shard_of=shard_of, states=states)`
unfoldable pub oom_bounded :
    (ℕ → String)
    → List (List String)
    → List (List String)
    → (ℕ → Option ℕ)
    → (ℕ → Option String)
    → Dict ℕ
    → Dict Fields
    → Bounded
unfolding ran_alone bound_groups
oom_bounded told pending items shard_at states lost cells =
    bound_groups told (ran_alone shard_at states 0 items) pending
      (record { kept = []; lost = lost; cells = cells })
