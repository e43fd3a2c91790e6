-- ===== src/Hpc/Faster.antt =====
-- The slowest shard after `balance` of src/lab_commons/hpc/shards.py.
use lab_commons.Commons.{
  ok, ℕ, zero, suc, ◌+◌, ◌-◌, ◌≤◌, ◌<◌, ◌≡◌, refl, sym, ap, ap₂, ◌∙◌, subst, false, List, [], ◌∷◌,
  ◌++◌, map, append_assoc, leb, length, length-append, take, take-append, All, arith, inl, inr,
  Bool-cases, sum_of,
}
use mathlib.Core.List.{Permᴰ}
use lab_commons.Hpc.Shards.{
  Range, drop, sum, slice_sum, slowest, enumerate, longest_first, fill, sort_indices, lay_out,
  counting, empty_loads, greatest, refill, balance,
}
use lab_commons.Hpc.Balance.{
  refill-perm, longest_first-perm, sort_indices-perm, length-no_bins, empty_loads-InBins,
}
use lab_commons.Hpc.Covered.{length-perm, refill-covers}
use lab_commons.Hpc.Pack.{Chains}
use lab_commons.Hpc.Loads.{
  seconds_at, load_at, named_at, load-greatest, cost, bin_cost, Timed, fill-loads,
}

sum-perm : (f : ℕ → ℕ) {xs ys : List ℕ} → Permᴰ xs ys → sum_of f xs ≡ sum_of f ys
sum-perm f Permᴰ.nil = refl
sum-perm f (Permᴰ.cons e h) = ap₂ (λ a b. a + b) (ap f e) (sum-perm f h)
sum-perm f (Permᴰ.swap e g) = omega (arith, ap f e, ap f g)
sum-perm f (Permᴰ.trans h k) = sum-perm f h ∙ sum-perm f k

All-perm {ℓ} : {A : Type 0} (P : A → Type ℓ) {xs ys : List A} → Permᴰ xs ys → All P ys → All P xs
All-perm P Permᴰ.nil h = h
All-perm P (Permᴰ.cons e p) h = (subst P (sym e) h.0, All-perm P p h.1)
All-perm P (Permᴰ.swap e f) h = (subst P (sym e) h.1.0, (subst P (sym f) h.0, h.1.1))
All-perm P (Permᴰ.trans p q) h = All-perm P p (All-perm P q h)

map-append : (f : ℕ → ℕ) (xs ys : List ℕ) → map f (xs ++ ys) ≡ map f xs ++ map f ys
map-append f [] ys = refl
map-append f (x ∷ xs) ys = ap (λ l. f x ∷ l) (map-append f xs ys)

length-map : (f : ℕ → ℕ) (xs : List ℕ) → length (map f xs) ≡ length xs
length-map f [] = refl
length-map f (x ∷ xs) = ap suc (length-map f xs)

sum-map : (f : ℕ → ℕ) (xs : List ℕ) → sum (map f xs) ≡ sum_of f xs
sum-map f [] = refl
sum-map f (x ∷ xs) = ap (λ n. f x + n) (sum-map f xs)

drop-append : (xs ys : List ℕ) → drop (length xs) (xs ++ ys) ≡ ys
drop-append [] ys = refl
drop-append (x ∷ xs) ys = drop-append xs ys

-- The middle of a list.
slice-middle :
    (xs ys zs : List ℕ) → slice_sum (xs ++ (ys ++ zs)) (length xs, length xs + length ys) ≡ sum ys
unfolding slice_sum
slice-middle xs ys zs =
    let width : length xs + length ys - length xs ≡ length ys = omega arith in
    ap₂ (λ n l. sum (take n l)) width (drop-append xs (ys ++ zs)) ∙ ap sum (take-append ys zs)

module _ (seconds : List ℕ) (bound : ℕ) where
  abbrev timed : List ℕ → List ℕ
  timed is = map (seconds_at seconds) is

  lay_out-slowest :
      (done : List ℕ) (bins : List (List ℕ))
      → All (λ bin. cost seconds bin ≤ bound) bins
      → slowest (done ++ timed (lay_out (length done) bins).0) (lay_out (length done) bins).1
        ≤ bound
  unfolding lay_out
  lay_out-slowest done [] h = omega arith
  lay_out-slowest done (bin ∷ bins) h =
      let rest = (lay_out (length done + length bin) bins).0 in
      let members = timed (sort_indices bin) in
      let width : length members ≡ length bin =
        length-map (seconds_at seconds) (sort_indices bin) ∙ length-perm (sort_indices-perm bin) in
      let stop : length (done ++ members) ≡ length done + length bin =
        length-append done members ∙ ap (λ n. length done + n) width in
      let all : done ++ timed (sort_indices bin ++ rest) ≡ done ++ (members ++ timed rest) =
        ap (λ l. done ++ l) (map-append (seconds_at seconds) (sort_indices bin) rest) in
      let first : slice_sum (done ++ timed (sort_indices bin ++ rest))
            (length done, length done + length bin)
          ≡ cost seconds bin =
        ap₂ (λ l n. slice_sum l (length done, length done + n)) all (sym width)
        ∙ slice-middle done members (timed rest)
        ∙ sum-map (seconds_at seconds) (sort_indices bin)
        ∙ sum-perm (seconds_at seconds) (sort_indices-perm bin) in
      let others : slowest (done ++ timed (sort_indices bin ++ rest))
            (lay_out (length done + length bin) bins).1
          ≤ bound =
        subst (λ l. slowest l (lay_out (length done + length bin) bins).1 ≤ bound)
          (append_assoc done members (timed rest) ∙ sym all)
          (subst
            (λ n.
              slowest ((done ++ members) ++ timed (lay_out n bins).0) (lay_out n bins).1 ≤ bound)
            stop (lay_out-slowest (done ++ members) bins h.1)) in
      omega (arith, first, others, h.0)

  enumerate-Timed :
      (n : ℕ) (xs : List ℕ)
      → ((k : ℕ) → seconds_at seconds (n + k) ≡ seconds_at xs k)
      → All (Timed seconds) (enumerate n xs)
  enumerate-Timed n [] h = tt
  enumerate-Timed n (x ∷ xs) h = (here, enumerate-Timed (n + 1) xs (λ k. later k))
    where
      here : x ≡ seconds_at seconds n
      here = let same : n + 0 ≡ n = omega arith in sym (h 0) ∙ ap (seconds_at seconds) same

      later : (k : ℕ) → seconds_at seconds (n + 1 + k) ≡ seconds_at xs k
      later k =
          let same : n + 1 + k ≡ n + suc k = omega arith in ap (seconds_at seconds) same ∙ h (suc k)

  timed-counting :
      (n : ℕ) (xs : List ℕ)
      → ((k : ℕ) → seconds_at seconds (n + k) ≡ seconds_at xs k)
      → timed (counting n xs) ≡ xs
  timed-counting n [] h = refl
  timed-counting n (x ∷ xs) h =
      ap₂ (λ y l. y ∷ l) (let same : n ≡ n + 0 = omega arith in ap (seconds_at seconds) same ∙ h 0)
        (timed-counting (n + 1) xs (λ k.
          let same : n + 1 + k ≡ n + suc k = omega arith in
          ap (seconds_at seconds) same ∙ h (suc k)))

  All-bins :
      (bins : List (List ℕ))
      → ((n : ℕ) → bin_cost seconds n bins ≤ bound)
      → All (λ bin. cost seconds bin ≤ bound) bins
  All-bins [] h = tt
  All-bins (bin ∷ bins) h = (h 0, All-bins bins (λ n. h (suc n)))

no_cost :
    (seconds : List ℕ) (m : ℕ) (shards : List Range)
    → bin_cost seconds m (map (λ shard. []) shards) ≡ 0
no_cost seconds m [] = refl
no_cost seconds zero (r ∷ shards) = refl
no_cost seconds (suc m) (r ∷ shards) = no_cost seconds m shards

no_load : (m n : ℕ) (shards : List Range) → sum_of (load_at m) (empty_loads n shards) ≡ 0
no_load m n [] = refl
no_load m n (r ∷ shards) = ground (arith, no_load m (n + 1) shards)

-- The bins that the loads of the start name are each named once.
named_once :
    (m n : ℕ) (shards : List Range)
    → (sum_of (named_at m) (empty_loads n shards) ≤ 1)
      × (m < n → sum_of (named_at m) (empty_loads n shards) ≡ 0)
named_once m n [] = (omega arith, λ h. refl)
named_once m n (r ∷ shards) =
    let (a, b) = named_once m (n + 1) shards in (ground (arith, a, b), λ h. ground (arith, a, b, h))

refill-no_slower :
    (seconds : List ℕ) (shards : List Range)
    → slowest (map (seconds_at seconds) (refill seconds shards).0) (refill seconds shards).1
      ≤ slowest seconds shards
unfolding refill
refill-no_slower seconds [] = omega arith
refill-no_slower seconds (r ∷ shards) =
    let items = longest_first (enumerate 0 seconds) in
    let bins = map (λ shard. []) (r ∷ shards) in
    let f = fill items (empty_loads 0 (r ∷ shards)) bins in
    let self = enumerate-Timed seconds 0 0 seconds (λ k. ap (seconds_at seconds) (zero_plus k)) in
    let loads =
      fill-loads seconds (length (r ∷ shards)) items (0, 0) (empty_loads 1 shards) bins
        (All-perm (Timed seconds) (longest_first-perm (enumerate 0 seconds)) self)
        (length-no_bins (r ∷ shards))
        (empty_loads-InBins 0 (length (r ∷ shards)) (r ∷ shards) (omega arith)) in
    let each : (n : ℕ) → bin_cost seconds n f.1 ≤ greatest f.0 = λ n.
      let (c, named) = loads n (no_cost seconds n (r ∷ shards) ∙ sym (no_load n 0 (r ∷ shards))) in
      omega
        (arith, c, load-greatest n f.0 (omega (arith, named, (named_once n 0 (r ∷ shards)).0))) in
    elim (Bool-cases (leb (slowest seconds (r ∷ shards)) (greatest f.0))) [
      | inl h ↦ rw h (
          omega (
            arith,
            ap (λ l. slowest l (r ∷ shards))
                (timed-counting seconds 0 0 seconds (λ k. ap (seconds_at seconds) (zero_plus k))),
          ))
      | inr h ↦ rw h (
          within _ _ _ h (
            lay_out-slowest seconds (greatest f.0) [] f.1
              (All-bins seconds (greatest f.0) f.1 each)))
    ]
  where
    zero_plus : (k : ℕ) → 0 + k ≡ k
    zero_plus k = omega arith

    within : (x s g : ℕ) → leb s g ≡ false → x ≤ g → x ≤ s
    within x s g h k = ground (arith, h, k)

-- `balance` of shards that follow one another from the first item to the last returns; the order that it
-- gives the items is a permutation of their numbers, and its ranges, as many as the shards, follow one
-- another from the first of them to the last, so that no item is lost or run twice; its slowest shard takes
-- no longer than the slowest one before.
pub balance_lem :
    (seconds : List ℕ) (r : Range) (shards : List Range)
    → Chains 0 (length seconds) (r ∷ shards)
    → (order : List ℕ) × (ranges : List Range) × (balance seconds (r ∷ shards) ≡ ok (order, ranges))
      × Permᴰ order (counting 0 seconds)
      × Chains 0 (length order) ranges
      × (length ranges ≡ length (r ∷ shards))
      × (slowest (map (seconds_at seconds) order) ranges ≤ slowest seconds (r ∷ shards))
unfolding balance
balance_lem seconds r shards covers =
    let made = refill seconds (r ∷ shards) in
    let (chain, count) = refill-covers seconds (r ∷ shards) covers in
    (
      made.0,
      made.1,
      refl,
      refill-perm seconds (r ∷ shards),
      chain,
      count,
      refill-no_slower seconds (r ∷ shards),
    )
