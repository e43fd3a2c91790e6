-- ===== src/Hpc/Merge.antt =====
-- `merged` of src/lab_commons/hpc/testcells.py: what stands of an id, and when it is flaky.
use lab_commons.Commons.{
  String, ◌≡◌, refl, ap, sym, ◌∙◌, Bool, true, false, not, ◌&&◌, ◌||◌, Option, none, some, List, [],
  ◌∷◌, ◌++◌, any, str_eq, eq_iff, if◌then◌else◌, arith, inl, inr, Bool-cases, Option-cases,
}
use lab_commons.Commons.Dict.{Dict, elem, lookup, lookup-insert}
use lab_commons.Outcomes.Status.{decided}
use lab_commons.Outcomes.Cell.Parts.{cell_eq}
use lab_commons.Hpc.TestCells.{TestCell, Merged, merge_one, merge_source, merge_into, merged}

abbrev pub is_decided : TestCell → Bool
is_decided one = decided one.cell.status

-- The cells that the sources report of an id, in their order.
abbrev pub cells_in : String → Dict TestCell → List TestCell
cells_in node [] = []
cells_in node ((j, one) ∷ source) =
    let rest = cells_in node source in if str_eq j node then one ∷ rest else rest

abbrev pub joined : List (Dict TestCell) → Dict TestCell
joined [] = []
joined (source ∷ sources) = source ++ joined sources

abbrev pub cells_for : String → List (Dict TestCell) → List TestCell
cells_for node sources = cells_in node (joined sources)

-- The first decided cell, else the last one.
abbrev pub standing : List TestCell → Option TestCell
standing [] = none
standing (x ∷ []) = some x
standing (x ∷ y ∷ xs) = let later = standing (y ∷ xs) in if is_decided x then some x else later

-- After the first decided cell comes a decided one that is not equal to it.
abbrev pub disagree : List TestCell → Bool
disagree [] = false
disagree (x ∷ xs) =
    let later = disagree xs in
    if is_decided x then any (λ y. is_decided y && not (cell_eq y.cell x.cell)) xs else later

abbrev keep_on : Option TestCell → List TestCell → List TestCell
keep_on none xs = xs
keep_on (some x) xs = x ∷ xs

-- What stands and whether it is flaky once the cells of an id come after those that are held.
abbrev stands : Option TestCell → List TestCell → Option TestCell
stands held xs = standing (keep_on held xs)

standing_first :
    (x : TestCell) (xs : List TestCell) → is_decided x ≡ true → standing (x ∷ xs) ≡ some x
standing_first x [] h = refl
standing_first x (y ∷ xs) h = rw h

-- One turn, as the id sees it.
abbrev held_after : Option TestCell → TestCell → Option TestCell
held_after none one = some one
held_after (some h) one = if is_decided h then some h else some one

abbrev differs : Option TestCell → TestCell → Bool
differs none one = false
differs (some h) one = is_decided h && (is_decided one && not (cell_eq one.cell h.cell))

merge_one-cells :
    (k : String) (m : Merged) (j : String) (one : TestCell)
    → lookup k (merge_one m (j, one)).cells
      ≡ (if str_eq j k then held_after (lookup k m.cells) one else lookup k m.cells)
unfolding merge_one
merge_one-cells k m j one = elim (Option-cases (lookup j m.cells)) [
  | inl e ↦ ground (arith, e, eq_iff j k, lookup-insert j k one m.cells)
  | inr (h, e) ↦ ground (arith, e, eq_iff j k, lookup-insert j k one m.cells)
]

merge_one-flaky :
    (k : String) (m : Merged) (j : String) (one : TestCell)
    → elem k (merge_one m (j, one)).flaky
      ≡ (elem k m.flaky || (str_eq j k && differs (lookup k m.cells) one))
unfolding merge_one
merge_one-flaky k m j one = elim (Option-cases (lookup j m.cells)) [
  | inl e ↦ ground (arith, e, eq_iff j k)
  | inr (h, e) ↦ ground (arith, e, eq_iff j k)
]

standing-step :
    (held : Option TestCell) (one : TestCell) (xs : List TestCell)
    → stands held (one ∷ xs) ≡ stands (held_after held one) xs
standing-step none one xs = refl
standing-step (some h) one xs = elim (Bool-cases (is_decided h)) [
  | inl e ↦ rw e (sym (standing_first h xs e))
  | inr e ↦ rw e
]

disagree-step :
    (held : Option TestCell) (one : TestCell) (xs : List TestCell)
    → disagree (keep_on held (one ∷ xs))
      ≡ (differs held one || disagree (keep_on (held_after held one) xs))
disagree-step none one xs = refl
disagree-step (some h) one xs = elim (Bool-cases (is_decided h)) [
  | inl e ↦ rw (e, e)
  | inr e ↦ rw e
]

disagree-alone : (held : Option TestCell) → disagree (keep_on held []) ≡ false
disagree-alone none = refl
disagree-alone (some h) = elim (Bool-cases (is_decided h)) [ inl e ↦ rw e | inr e ↦ rw e ]

stands-alone : (held : Option TestCell) → stands held [] ≡ held
stands-alone none = refl
stands-alone (some h) = refl

merge_source-cells :
    (k : String) (source : Dict TestCell) (m : Merged)
    → lookup k (merge_source m source).cells ≡ stands (lookup k m.cells) (cells_in k source)
unfolding merge_source
merge_source-cells k [] m = sym (stands-alone (lookup k m.cells))
merge_source-cells k ((j, one) ∷ source) m =
    merge_source-cells k source (merge_one m (j, one)) ∙ elim (Bool-cases (str_eq j k)) [
      | inl e ↦ rw (merge_one-cells k m j one, e) (sym (standing-step (lookup k m.cells) one _))
      | inr e ↦ rw (merge_one-cells k m j one, e) refl
    ]

or_assoc : (a b c : Bool) → ((a || b) || c) ≡ (a || (b || c))
or_assoc true b c = refl
or_assoc false b c = refl

or_false : (a : Bool) → (a || false) ≡ a
or_false true = refl
or_false false = refl

merge_source-flaky :
    (k : String) (source : Dict TestCell) (m : Merged)
    → elem k (merge_source m source).flaky
      ≡ (elem k m.flaky || disagree (keep_on (lookup k m.cells) (cells_in k source)))
unfolding merge_source
merge_source-flaky k [] m = rw (disagree-alone (lookup k m.cells)) (sym (or_false _))
merge_source-flaky k ((j, one) ∷ source) m =
    merge_source-flaky k source (merge_one m (j, one)) ∙ elim (Bool-cases (str_eq j k)) [
      | inl e ↦
          rw (merge_one-flaky k m j one, merge_one-cells k m j one, e)
            (or_assoc (elem k m.flaky) (differs (lookup k m.cells) one) _
              ∙ ap (λ b. elem k m.flaky || b) (sym (disagree-step (lookup k m.cells) one _)))
      | inr e ↦
          rw (merge_one-flaky k m j one, merge_one-cells k m j one, e)
            (ap (λ b. b || disagree (keep_on (lookup k m.cells) (cells_in k source)))
              (or_false (elem k m.flaky)))
    ]

merge_source-append :
    (m : Merged) (a b : Dict TestCell) → merge_source m (a ++ b) ≡ merge_source (merge_source m a) b
unfolding merge_source
merge_source-append m [] b = refl
merge_source-append m (i ∷ a) b = merge_source-append (merge_one m i) a b

merge_into-joined :
    (m : Merged) (sources : List (Dict TestCell))
    → merge_into m sources ≡ merge_source m (joined sources)
unfolding merge_into merge_source
merge_into-joined m [] = refl
merge_into-joined m (source ∷ sources) =
    merge_into-joined (merge_source m source) sources
    ∙ sym (merge_source-append m source (joined sources))

-- Of several processes' cells of a run, an id has its first decided cell, else its last one, and it is
-- flaky exactly when a decided cell after its first decided one is not equal to it.
pub merged_lem :
    (k : String) (sources : List (Dict TestCell))
    → (lookup k (merged sources).cells ≡ standing (cells_for k sources))
      × (elem k (merged sources).flaky ≡ disagree (cells_for k sources))
unfolding merged lookup
merged_lem k sources = (
  rw (merge_into-joined _ sources) (merge_source-cells k (joined sources) _),
  rw (merge_into-joined _ sources) (merge_source-flaky k (joined sources) _),
)
