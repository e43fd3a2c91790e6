-- ===== src/Hpc/Round/Top.antt =====
-- `fold` of src/lab_commons/hpc/records.py at an item of a shard that was cut at the longest wall.
use lab_commons.Commons.{
  suc, ◌≤◌, ◌↔◌, sym, Bool, true, not, ◌||◌, length, All, Option-cases, Result, ℕ, String, ◌≡◌,
  refl, ap, ◌∙◌, false, Option, none, some, List, [], ◌∷◌, ok, err, Error, traverse, ◌>>=◌, arith,
  inl, inr, Bool-cases,
}
use lab_commons.Commons.Dict.{Dict}
use lab_commons.Outcomes.Plain.{Fields}
use lab_commons.Hpc.Round.Stream.{Done, Folded, is_signalled}
use lab_commons.Hpc.Round.Measured.{Measured, unreported}
use lab_commons.Hpc.Round.Losses.{spent_of, Setting, shard_of}
use lab_commons.Hpc.Round.Fold.{
  Round, cut_at_top, plain_item, unfinished, settle_item, fold_reported, fold_item, Item, folded,
  folds_of, fold_items, busy, begun, fold,
}
use lab_commons.Hpc.Round.Kept.{
  is_nonempty, is_none, ends_itself, SettlesAll, fold_item-returns, killed_after-returns,
  fold-keeps,
}
use lab_commons.Hpc.Shards.{Range}

settle_item-top :
    (s : Setting) (shard : Option ℕ) (i : ℕ) (closed : Option Done) (hit : Option String)
    (rest : List String) (seen taught : Round) (top : ℕ)
    → ends_itself closed ≡ false
    → cut_at_top s shard ≡ some top
    → (hog peak : Option ℕ) × (settle_item s shard i closed hit rest seen taught
        ≡ unfinished s.told (some top) hog peak rest taught)
unfolding settle_item
settle_item-top s shard i none hit rest seen taught top e c =
    (s.alone i, none, ap (λ t. unfinished s.told t (s.alone i) none rest taught) c)
settle_item-top s shard i (some done) hit rest seen taught top e c =
    elim (Bool-cases (is_signalled (some done))) [
      | inl sig ↦ (
        s.alone i,
        done.peak,
        rw sig (ap (λ t. unfinished s.told t (s.alone i) done.peak rest taught) c),
      )
      | inr sig ↦ absurd (ground (arith, e, sig))
    ]

module _ (s : Setting) (shard : Option ℕ) (i : ℕ) (closed : Option Done) (hit : Option String)
    (owed : List String) (seen taught : Round) (top : ℕ) (e : ends_itself closed ≡ false)
    (c : cut_at_top s shard ≡ some top) where
  settle_item-refused :
      owed ≡ [] → settle_item s shard i closed hit owed seen taught ≡ err Error.index_error
  unfolding unfinished
  settle_item-refused none_owed =
      let (hog, peak, same) = settle_item-top s shard i closed hit owed seen taught top e c in
      same ∙ ap (λ l. unfinished s.told (some top) hog peak l taught) none_owed

fold_item-index_error :
    (s : Setting) (spent i : ℕ) (ids : List String) (f : Folded) (r : Round) (plain : Dict Fields)
    (top : ℕ)
    → traverse plain_item f.cells ≡ ok plain
    → ends_itself f.closed ≡ false
    → cut_at_top s (shard_of s.shards 0 i) ≡ some top
    → unreported ids f ≡ []
    → fold_item s spent i ids f r ≡ err Error.index_error
unfolding fold_item fold_reported
fold_item-index_error s spent i ids f r plain top read e c none_owed =
    ap (λ m. m >>= λ told. fold_reported s spent i ids f told r) read
    ∙ settle_item-refused s (shard_of s.shards 0 i) i f.closed f.started (unreported ids f) _ _ top
        e c none_owed

-- Every line that an item reported reads as a cell.
abbrev pub ReadsAll : List (List String × Folded) → Type 0
ReadsAll [] = Unit
ReadsAll ((ids, f) ∷ items) =
    ((plain : Dict Fields) × (traverse plain_item f.cells ≡ ok plain)) × ReadsAll items

-- The item reported all of its ids and did not end by itself, in a shard that was cut at the longest wall.
abbrev pub is_stuck : Setting → ℕ → List String → Folded → Bool
is_stuck s i ids f = not (
    ends_itself f.closed
    || is_none (cut_at_top s (shard_of s.shards 0 i))
    || is_nonempty (unreported ids f))

abbrev pub any_stuck : Setting → ℕ → List (List String × Folded) → Bool
any_stuck s i [] = false
any_stuck s i ((ids, f) ∷ items) = is_stuck s i ids f || any_stuck s (suc i) items

none_owed : (owed : List String) → is_nonempty owed ≡ false → owed ≡ []
none_owed [] h = refl
none_owed (n ∷ owed) h = absurd (ground (arith, h))

fold_item-stuck :
    (s : Setting) (spent i : ℕ) (ids : List String) (f : Folded) (r : Round) (plain : Dict Fields)
    → traverse plain_item f.cells ≡ ok plain
    → is_stuck s i ids f ≡ true
    → fold_item s spent i ids f r ≡ err Error.index_error
fold_item-stuck s spent i ids f r plain read h =
    elim (Option-cases (cut_at_top s (shard_of s.shards 0 i))) [
      | inl none_cut ↦ absurd (ground (arith, none_cut, h))
      | inr (top, cut) ↦
          fold_item-index_error s spent i ids f r plain top read (ground (arith, h)) cut
            (none_owed (unreported ids f) (ground (arith, h)))
    ]

fold_items-stuck :
    (s : Setting) (spent : List (ℕ × ℕ)) (i : ℕ) (items : List (List String × Folded)) (r : Round)
    → ReadsAll items
    → any_stuck s i items ≡ true
    → fold_items s spent i items r ≡ err Error.index_error
unfolding fold_items
fold_items-stuck s spent i [] r reads h = absurd (ground (arith, h))
fold_items-stuck s spent i ((ids, f) ∷ items) r ((plain, read), reads) h =
    elim (Bool-cases (is_stuck s i ids f)) [
      | inl stuck ↦
          ap (λ m. m >>= λ n. fold_items s spent (suc i) items n)
            (fold_item-stuck s (spent_of spent i) i ids f r plain read stuck)
      | inr goes ↦
          let (next, e) =
            fold_item-returns s (spent_of spent i) i ids f r (plain, read, ground (arith, goes)) in
          ap (λ m. m >>= λ n. fold_items s spent (suc i) items n) e
          ∙ fold_items-stuck s spent (suc i) items next reads (ground (arith, h, goes))
    ]

all_settle :
    (s : Setting) (i : ℕ) (items : List (List String × Folded))
    → ReadsAll items
    → any_stuck s i items ≡ false
    → SettlesAll s i items
all_settle s i [] reads h = tt
all_settle s i ((ids, f) ∷ items) ((plain, read), reads) h =
    ((plain, read, ground (arith, h)), all_settle s (suc i) items reads (ground (arith, h)))

-- When Slurm names the wall of each shard, no shard reaches past the items and every line reads as a cell, the
-- fold of a round raises an index error exactly when some item that reported all of its ids did not end by
-- itself in a shard cut at the longest wall.
pub fold-index_error :
    (s : Setting) (items : List Item) (cells : Dict Fields) (measured : Measured)
    → length s.walls ≡ length s.shards
    → All (λ (r : Range). r.1 ≤ length (folds_of (folded items))) s.shards
    → ReadsAll (folded items)
    → (fold s items cells measured ≡ err Error.index_error) ↔ (any_stuck s 0 (folded items) ≡ true)
unfolding fold
fold-index_error s items cells measured walls inside reads = (
  λ h. elim (Bool-cases (any_stuck s 0 (folded items))) [
    | inl stuck ↦ stuck
    | inr none_stuck ↦
        let (left, seconds, e, keeps) =
          fold-keeps s items cells measured walls inside
            (all_settle s 0 (folded items) reads none_stuck) in
        absurd (no_error (sym e ∙ h))
  ],
  λ stuck.
      let (spent, e) =
        killed_after-returns (folds_of (folded items)) s.shards s.walls [] walls inside in
      ap
        (λ m. m >>= λ n. fold_items s n 0 (folded items) (begun cells measured) >>= λ l.
          ok (l, busy (folds_of (folded items))))
        e
      ∙ ap (λ m. m >>= λ l. ok (l, busy (folds_of (folded items))))
          (fold_items-stuck s spent 0 (folded items) (begun cells measured) reads stuck),
)
  where
    no_error : {x : Round × ℕ} → Result.ok x ≡ err Error.index_error → ⊥
    no_error h = cc
