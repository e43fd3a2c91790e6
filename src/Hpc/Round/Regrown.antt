-- ===== src/Hpc/Round/Regrown.antt =====
-- `grown_after` of src/lab_commons/hpc/gather.py, id by id.
use lab_commons.Commons.{
  ℕ, suc, String, ◌≡◌, refl, ap, ap₂, sym, ◌∙◌, Bool, true, false, not, ◌&&◌, ◌||◌, Option, none,
  some, List, [], ◌∷◌, str_eq, keep, if◌then◌else◌, ok, ◌>>=◌, arith, inl, inr, Bool-cases,
}
use lab_commons.Commons.Dict.{Dict, elem, lookup, default, keys}
use lab_commons.Outcomes.Plain.{Fields}
use lab_commons.Hpc.Round.Covers.{elem-keep}
use lab_commons.Hpc.Round.Growth.{
  Marks, first_of, mark_item, marks_of, is_known, regrown, grown_after,
}
use lab_commons.Hpc.Round.Dropped.{elem-append, growth_of, regrown_lem}

-- The state of an item's shard.
abbrev pub state_of : (ℕ → Option String) → Option ℕ → String
state_of states none = ""
state_of states (some n) = default "" (states n)

abbrev pub state_at : (ℕ → Option ℕ) → (ℕ → Option String) → ℕ → String
state_at shard_at states i = state_of states (shard_at i)

abbrev is_first : String → List String → Bool
is_first k [] = false
is_first k (n ∷ rest) = str_eq n k

-- A kill cut the id: it is the first without a cell of an item whose shard did not time out, in a round that
-- ran out of memory.
abbrev pub was_cut : Bool → Dict Fields → (ℕ → String) → String → ℕ → List (List String) → Bool
was_cut oom cells state k i [] = false
was_cut oom cells state k i (ids ∷ items) =
    (oom
      && not (str_eq (state i) "TIMEOUT")
      && is_first k (keep (λ n. not (elem n (keys cells))) ids))
    || was_cut oom cells state k (suc i) items

-- The id has a cell, and is one of an item whose shard did not run out of memory.
abbrev pub has_finished : Dict Fields → (ℕ → String) → String → ℕ → List (List String) → Bool
has_finished cells state k i [] = false
has_finished cells state k i (ids ∷ items) =
    (not (str_eq (state i) "OUT_OF_MEMORY") && (elem k ids && elem k (keys cells)))
    || has_finished cells state k (suc i) items

-- Each item has a shard.
abbrev pub HasShards : (ℕ → Option ℕ) → ℕ → List (List String) → Type 0
HasShards shard_at i [] = Unit
HasShards shard_at i (ids ∷ items) =
    ((n : ℕ) × (shard_at i ≡ some n)) × HasShards shard_at (suc i) items

or_assoc : (a b c : Bool) → ((a || b) || c) ≡ (a || (b || c))
or_assoc a b c = ground arith

or_false : (a : Bool) → (a || false) ≡ a
or_false a = ground arith

or_comm : (a b : Bool) → (a || b) ≡ (b || a)
or_comm a b = ground arith

mark_item-cut :
    (oom : Bool) (cells : Dict Fields) (state : String) (ids : List String) (m : Marks) (k : String)
    → elem k (mark_item oom cells state ids m).cut ≡ (
        elem k m.cut
        || (oom
            && not (str_eq state "TIMEOUT")
            && is_first k (keep (λ n. not (elem n (keys cells))) ids)))
unfolding mark_item
mark_item-cut oom cells state ids m k =
    first_of-cut (oom && not (str_eq state "TIMEOUT")) (keep (λ n. not (elem n (keys cells))) ids)
  where
    first_of-cut :
        (b : Bool) (owed : List String)
        → elem k (if b then first_of owed m.cut else m.cut)
          ≡ (elem k m.cut || (b && is_first k owed))
    first_of-cut false owed = ground arith
    first_of-cut true [] = ground arith
    first_of-cut true (n ∷ rest) = ground arith

mark_item-finished :
    (oom : Bool) (cells : Dict Fields) (state : String) (ids : List String) (m : Marks) (k : String)
    → elem k (mark_item oom cells state ids m).finished ≡ (
        elem k m.finished
        || (not (str_eq state "OUT_OF_MEMORY") && (elem k ids && elem k (keys cells))))
unfolding mark_item
mark_item-finished oom cells state ids m k = elim (Bool-cases (str_eq state "OUT_OF_MEMORY")) [
  | inl e ↦ rw e (sym (or_false (elem k m.finished)))
  | inr e ↦ rw e (
      elem-append k (keep (λ n. elem n (keys cells)) ids) m.finished
      ∙ ap (λ b. b || elem k m.finished) (elem-keep (λ n. elem n (keys cells)) k ids)
      ∙ or_comm (elem k ids && elem k (keys cells)) (elem k m.finished))
]

marks_of-step :
    (oom : Bool) (cells : Dict Fields) (shard_at : ℕ → Option ℕ) (states : ℕ → Option String)
    (i n : ℕ) (ids : List String) (items : List (List String)) (m : Marks)
    → shard_at i ≡ some n
    → marks_of oom cells shard_at states i (ids ∷ items) m
      ≡ marks_of oom cells shard_at states
          (suc i)
          items
          (mark_item oom cells (state_at shard_at states i) ids m)
unfolding marks_of
marks_of-step oom cells shard_at states i n ids items m e = rw (e, marks_of) refl

marks_of-lem :
    (oom : Bool) (cells : Dict Fields) (shard_at : ℕ → Option ℕ) (states : ℕ → Option String)
    (i : ℕ) (items : List (List String)) (m : Marks)
    → HasShards shard_at i items
    → (end : Marks) × (marks_of oom cells shard_at states i items m ≡ ok end)
      × ((k : String)
          → (elem k end.cut
              ≡ (elem k m.cut || was_cut oom cells (state_at shard_at states) k i items))
            × (elem k end.finished
                ≡ (elem k m.finished || has_finished cells (state_at shard_at states) k i items)))
unfolding marks_of
marks_of-lem oom cells shard_at states i [] m h =
    (m, refl, λ k. (sym (or_false (elem k m.cut)), sym (or_false (elem k m.finished))))
marks_of-lem oom cells shard_at states i (ids ∷ items) m ((n, e), rest) =
    let state = state_at shard_at states i in
    let next = mark_item oom cells state ids m in
    let (end, g, marks) = marks_of-lem oom cells shard_at states (suc i) items next rest in
    (
      end,
      marks_of-step oom cells shard_at states i n ids items m e ∙ g,
      λ k. (
        (marks k).0
            ∙ ap (λ b. b || was_cut oom cells (state_at shard_at states) k (suc i) items)
                (mark_item-cut oom cells state ids m k)
            ∙ or_assoc (elem k m.cut) _ _,
        (marks k).1
            ∙ ap (λ b. b || has_finished cells (state_at shard_at states) k (suc i) items)
                (mark_item-finished oom cells state ids m k)
            ∙ or_assoc (elem k m.finished) _ _,
      ),
    )

-- When each item has a shard, the growth of an id after a round is this: an id that a kill cut has its growth
-- doubled, once, or dropped where the kill taught it or its file; any other that finished has it dropped; all
-- others keep theirs.
pub grown_after_lem :
    (items : List (List String)) (cells : Dict Fields) (shard_at : ℕ → Option ℕ)
    (states : ℕ → Option String) (grown : Dict ℕ) (oom : Bool) (taught : List String)
    → HasShards shard_at 0 items
    → (after : Dict ℕ) × (grown_after items cells shard_at states grown oom taught ≡ ok after)
      × ((k : String)
          → lookup k after
            ≡ growth_of
                (was_cut oom cells (state_at shard_at states) k 0 items)
                (has_finished cells (state_at shard_at states) k 0 items)
                (is_known taught k)
                (lookup k grown))
unfolding grown_after
grown_after_lem items cells shard_at states grown oom taught h =
    let (m, e, marks) =
      marks_of-lem oom cells shard_at states 0 items (record { cut = []; finished = [] }) h in
    (
      regrown taught m grown,
      ap (λ r. r >>= λ m'. ok (regrown taught m' grown)) e,
      λ k.
          regrown_lem taught m grown k
          ∙ ap₂ (λ a b. growth_of a b (is_known taught k) (lookup k grown)) (marks k).0 (marks k).1,
    )
