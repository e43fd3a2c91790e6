-- ===== src/Hpc/Loads.antt =====
-- The loads that `balance` of src/lab_commons/hpc/shards.py keeps of its bins.
use lab_commons.Commons.{
  ℕ, zero, suc, ◌+◌, ◌≤◌, ◌<◌, ◌≡◌, refl, ◌∙◌, List, [], ◌∷◌, ◌==◌, length, if◌then◌else◌, All,
  arith, inl, inr, Bool-cases, sum_of, sum_of-append,
}
use lab_commons.Hpc.Shards.{is_before, pop, put_in, fill, greatest}
use lab_commons.Hpc.Balance.{InBins, length-put_in, pop-InBins}

-- `seconds[i]`, of an item's number.
abbrev pub seconds_at : List ℕ → ℕ → ℕ
seconds_at [] i = 0
seconds_at (x ∷ xs) zero = x
seconds_at (x ∷ xs) (suc i) = seconds_at xs i

sum-pop :
    (f : ℕ × ℕ → ℕ) (a : ℕ × ℕ) (loads : List (ℕ × ℕ))
    → f (pop a loads).0 + sum_of f (pop a loads).1 ≡ f a + sum_of f loads
sum-pop f a [] = refl
sum-pop f a (b ∷ loads) = elim (Bool-cases (is_before (pop b loads).0 a)) [
  | inl h ↦ rw h (omega (arith, sum-pop f b loads))
  | inr h ↦ rw h (omega (arith, sum-pop f b loads))
]

-- The load of a bin and how often the loads name it.
abbrev pub load_at : ℕ → ℕ × ℕ → ℕ
load_at n a = if a.1 == n then a.0 else 0

abbrev pub named_at : ℕ → ℕ × ℕ → ℕ
named_at n a = if a.1 == n then 1 else 0

none_at :
    (n : ℕ) (loads : List (ℕ × ℕ)) → sum_of (named_at n) loads ≡ 0 → sum_of (load_at n) loads ≡ 0
none_at n [] h = refl
none_at n (a ∷ loads) h = elim (Bool-cases (a.1 == n)) [
  | inl e ↦ ground (arith, e, h)
  | inr e ↦ ground (arith, e, h, none_at n loads)
]

pub load-greatest :
    (n : ℕ) (loads : List (ℕ × ℕ))
    → sum_of (named_at n) loads ≤ 1
    → sum_of (load_at n) loads ≤ greatest loads
load-greatest n [] h = omega arith
load-greatest n (a ∷ loads) h = elim (Bool-cases (a.1 == n)) [
  | inl e ↦ ground (arith, e, h, none_at n loads)
  | inr e ↦ ground (arith, e, h, load-greatest n loads)
]

module _ (seconds : List ℕ) where
  abbrev pub cost : List ℕ → ℕ
  cost is = sum_of (seconds_at seconds) is

  -- The seconds of a bin.
  abbrev pub bin_cost : ℕ → List (List ℕ) → ℕ
  bin_cost n [] = 0
  bin_cost zero (bin ∷ bins) = cost bin
  bin_cost (suc n) (bin ∷ bins) = bin_cost n bins

  bin_cost-put_in :
      (m n index : ℕ) (bins : List (List ℕ))
      → n < length bins
      → bin_cost m (put_in n index bins)
        ≡ bin_cost m bins + (if n == m then seconds_at seconds index else 0)
  bin_cost-put_in m n index [] h = let no : ⊥ = omega (arith, h) in elim no [ ]
  bin_cost-put_in zero zero index (bin ∷ bins) h =
      omega (arith, sum_of-append (seconds_at seconds) bin (index ∷ []))
  bin_cost-put_in (suc m) zero index (bin ∷ bins) h = ground arith
  bin_cost-put_in zero (suc n) index (bin ∷ bins) h = ground arith
  bin_cost-put_in (suc m) (suc n) index (bin ∷ bins) h =
      bin_cost-put_in m n index bins (omega (arith, h)) ∙ ground arith

  -- An item goes with its own seconds.
  abbrev pub Timed : ℕ × ℕ → Type 0
  Timed i = i.1 ≡ seconds_at seconds i.0

  pub fill-loads :
      (count : ℕ) (items : List (ℕ × ℕ)) (a : ℕ × ℕ) (loads : List (ℕ × ℕ)) (bins : List (List ℕ))
      → All Timed items
      → length bins ≡ count
      → InBins count (a ∷ loads)
      → (m : ℕ) → bin_cost m bins ≡ sum_of (load_at m) (a ∷ loads)
      → (bin_cost m (fill items (a ∷ loads) bins).1
          ≡ sum_of (load_at m) (fill items (a ∷ loads) bins).0)
        × (sum_of (named_at m) (fill items (a ∷ loads) bins).0 ≡ sum_of (named_at m) (a ∷ loads))
  unfolding fill
  fill-loads count [] a loads bins t e h m b = (b, refl)
  fill-loads count ((index, c) ∷ items) a loads bins t e h m b =
      let p = pop a loads in
      let (least, rest) = pop-InBins count a loads h.0 h.1 in
      let put = bin_cost-put_in m p.0.1 index bins (omega (arith, least, e)) in
      let (x, y) =
        fill-loads count items (p.0.0 + c, p.0.1) p.1 (put_in p.0.1 index bins) t.1
          (length-put_in p.0.1 index bins ∙ e) (least, rest) m
          (ground (arith, put, b, t.0, sum-pop (load_at m) a loads)) in
      (x, y ∙ ground (arith, sum-pop (named_at m) a loads))
