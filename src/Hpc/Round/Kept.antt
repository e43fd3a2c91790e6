-- ===== src/Hpc/Round/Kept.antt =====
-- `fold` of src/lab_commons/hpc/records.py: when it returns, and that no id of a round is lost or made up.
use lab_commons.Commons.{
  ℕ, zero, suc, ◌+◌, ◌-◌, ◌≤◌, ◌<◌, String, ◌≡◌, refl, ap, ◌∙◌, Bool, true, false, not, ◌||◌,
  Option, none, some, List, [], ◌∷◌, length, get_elem?, any, All, if◌then◌else◌, ok, traverse,
  ◌>>=◌, arith, inl, inr, Bool-cases, Option-cases,
}
use lab_commons.Commons.Dict.{Dict, elem, keys}
use lab_commons.Outcomes.Plain.{Fields}
use lab_commons.Hpc.Shards.{Range}
use lab_commons.Hpc.Round.Stream.{Done, Folded, read_stream, is_signalled}
use lab_commons.Hpc.Round.Measured.{Measured, unreported}
use lab_commons.Hpc.Round.Losses.{Setting, Notice, shard_of, spent_of, killed_in, killed_after}
use lab_commons.Hpc.Round.Fold.{
  Round, Item, folded, folds_of, begun, cut_at_top, plain_item, exited, unfinished, settle_item,
  fold_reported, fold_item, fold_items, fold, busy,
}
use lab_commons.Hpc.Round.Covers.{covered, fold_item-covered}
use lab_commons.Hpc.Round.Reported.{reported-or_owed}

abbrev pub is_nonempty {ℓ} : {A : Type ℓ} → List A → Bool
is_nonempty [] = false
is_nonempty (x ∷ xs) = true

abbrev pub is_none {ℓ} : {A : Type ℓ} → Option A → Bool
is_none none = true
is_none (some a) = false

abbrev pub ends_itself : Option Done → Bool
ends_itself none = false
ends_itself (some done) = not (is_signalled (some done))

-- Every line that the item reported reads as a cell, and where its shard was cut at the longest wall before
-- the item ended by itself, it owes an id.
abbrev pub Settles : Setting → ℕ → List String → Folded → Type 0
Settles s i ids f =
    (plain : Dict Fields) × (traverse plain_item f.cells ≡ ok plain)
    × ((ends_itself f.closed
          || is_none (cut_at_top s (shard_of s.shards 0 i))
          || is_nonempty (unreported ids f))
        ≡ true)

abbrev pub SettlesAll : Setting → ℕ → List (List String × Folded) → Type 0
SettlesAll s i [] = Unit
SettlesAll s i ((ids, f) ∷ items) = Settles s i ids f × SettlesAll s (suc i) items

unfinished-returns :
    (told : Notice → String) (top hog peak : Option ℕ) (rest : List String) (r : Round)
    → (is_none top || is_nonempty rest) ≡ true
    → (left : Round) × (unfinished told top hog peak rest r ≡ ok left)
unfolding unfinished
unfinished-returns told (some top) hog peak [] r h = cc
unfinished-returns told (some top) hog peak (cut ∷ rest) r h = (_, refl)
unfinished-returns told none (some limit) peak (lone ∷ []) r h = (_, refl)
unfinished-returns told none (some limit) peak [] r h = (_, refl)
unfinished-returns told none (some limit) peak (a ∷ b ∷ rest) r h = (_, refl)
unfinished-returns told none none peak rest r h = (_, refl)

settle_item-returns :
    (s : Setting) (shard : Option ℕ) (i : ℕ) (closed : Option Done) (hit : Option String)
    (rest : List String) (seen taught : Round)
    → (ends_itself closed || is_none (cut_at_top s shard) || is_nonempty rest) ≡ true
    → (left : Round) × (settle_item s shard i closed hit rest seen taught ≡ ok left)
unfolding settle_item
settle_item-returns s shard i none hit rest seen taught h =
    unfinished-returns s.told (cut_at_top s shard) (s.alone i) none rest taught h
settle_item-returns s shard i (some done) hit rest seen taught h =
    elim (Bool-cases (is_signalled (some done))) [
      | inl e ↦ rw e (
          unfinished-returns s.told (cut_at_top s shard) (s.alone i) done.peak rest taught
            (rw e at h))
      | inr e ↦ (exited s.told done.code hit rest seen, rw e refl)
    ]

pub fold_item-returns :
    (s : Setting) (spent i : ℕ) (ids : List String) (f : Folded) (r : Round)
    → Settles s i ids f
    → (left : Round) × (fold_item s spent i ids f r ≡ ok left)
unfolding fold_item fold_reported
fold_item-returns s spent i ids f r (plain, read, h) =
    let (left, e) =
      settle_item-returns s (shard_of s.shards 0 i) i f.closed f.started (unreported ids f) _ _ h in
    (left, ap (λ m. m >>= λ told. fold_reported s spent i ids f told r) read ∙ e)

abbrev pub is_of : String → List Item → Bool
is_of k items = any (λ (item : Item). elem k item.0) items

fold_items-keeps :
    (s : Setting) (spent : List (ℕ × ℕ)) (i : ℕ) (items : List Item) (r : Round)
    → SettlesAll s i (folded items)
    → (left : Round) × (fold_items s spent i (folded items) r ≡ ok left)
      × ((k : String) → covered k left ≡ (covered k r || is_of k items))
unfolding fold_items
fold_items-keeps s spent i [] r h = (r, refl, λ k. ground arith)
fold_items-keeps s spent i ((ids, lines) ∷ items) r (h, rest) =
    let f = read_stream lines ids in
    let (next, e) = fold_item-returns s (spent_of spent i) i ids f r h in
    let (left, g, keeps) = fold_items-keeps s spent (suc i) items next rest in
    (
      left,
      ap (λ m. m >>= λ n. fold_items s spent (suc i) (folded items) n) e ∙ g,
      λ k. ground (
        arith,
        keeps k,
        fold_item-covered s (spent_of spent i) i ids f r k e,
        reported-or_owed ids lines k,
      ),
    )

get_elem?-some {ℓ} :
    {A : Type ℓ} (xs : List A) (i : ℕ) → i < length xs → (x : A) × (get_elem? xs i ≡ some x)
get_elem?-some [] i h = absurd (omega arith)
get_elem?-some (x ∷ xs) zero h = (x, refl)
get_elem?-some (x ∷ xs) (suc i) h = get_elem?-some xs i (omega arith)

killed_in-returns :
    (folds : List Folded) (count i left : ℕ) (spent : List (ℕ × ℕ))
    → (0 < count → i + count ≤ length folds)
    → (more : List (ℕ × ℕ)) × (killed_in folds count i left spent ≡ ok more)
unfolding killed_in
killed_in-returns folds zero i left spent h = (spent, refl)
killed_in-returns folds (suc count) i left spent h =
    let inside : i + suc count ≤ length folds = h (omega arith) in
    let (f, e) = get_elem?-some folds i (omega arith) in
    elim (Option-cases f.closed) [
      | inl open' ↦ ((i, left) ∷ spent, rw (e, killed_in) (rw (open', killed_in) refl))
      | inr (done, c) ↦
          let (more, g) =
            killed_in-returns folds count (suc i) (left - done.wall)
              (if is_signalled (some done) then (i, done.wall) ∷ spent else spent)
              (λ p. omega arith) in
          (more, rw (e, killed_in) (rw (c, killed_in) g))
    ]

pub killed_after-returns :
    (folds : List Folded) (shards : List Range) (walls : List ℕ) (spent : List (ℕ × ℕ))
    → length walls ≡ length shards
    → All (λ (r : Range). r.1 ≤ length folds) shards
    → (more : List (ℕ × ℕ)) × (killed_after folds shards walls spent ≡ ok more)
unfolding killed_after
killed_after-returns folds [] [] spent h w = (spent, refl)
killed_after-returns folds [] (wall ∷ walls) spent h w = absurd (omega arith)
killed_after-returns folds ((a, b) ∷ shards) [] spent h w = absurd (omega arith)
killed_after-returns folds ((a, b) ∷ shards) (wall ∷ walls) spent h (inside, w) =
    let (more, e) = killed_in-returns folds (b - a) a wall spent (λ p. omega arith) in
    let (all, g) = killed_after-returns folds shards walls more (omega arith) w in
    (all, ap (λ m. m >>= λ n. killed_after folds shards walls n) e ∙ g)

-- A round folds when Slurm names the wall of each shard and no shard reaches past the items, every line reads
-- as a cell, and an item that does not end by itself in a shard cut at the longest wall owes an id. Then
-- an id has a cell or waits for the next round exactly when it had a cell before or is an item's.
pub fold-keeps :
    (s : Setting) (items : List Item) (cells : Dict Fields) (measured : Measured)
    → length s.walls ≡ length s.shards
    → All (λ (r : Range). r.1 ≤ length (folds_of (folded items))) s.shards
    → SettlesAll s 0 (folded items)
    → (left : Round) × (seconds : ℕ) × (fold s items cells measured ≡ ok (left, seconds))
      × ((k : String) → covered k left ≡ (elem k (keys cells) || is_of k items))
unfolding fold
fold-keeps s items cells measured walls inside settles =
    let (spent, e) =
      killed_after-returns (folds_of (folded items)) s.shards s.walls [] walls inside in
    let (left, g, keeps) = fold_items-keeps s spent 0 items (begun cells measured) settles in
    (
      left,
      busy (folds_of (folded items)),
      ap
            (λ m. m >>= λ n. fold_items s n 0 (folded items) (begun cells measured) >>= λ l.
              ok (l, busy (folds_of (folded items))))
            e
          ∙ ap (λ m. m >>= λ l. ok (l, busy (folds_of (folded items)))) g,
      λ k. ground (arith, keeps k),
    )
