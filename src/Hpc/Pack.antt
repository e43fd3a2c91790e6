-- ===== src/Hpc/Pack.antt =====
-- The shards of `_pack` of src/lab_commons/hpc/shards.py.
use lab_commons.Commons.{
  ℕ, zero, suc, ◌+◌, ◌-◌, ◌≤◌, ◌≡◌, refl, ap, subst, false, ◌&&◌, ◌||◌, List, [], ◌∷◌, ltb, leb,
  ltb→ge, length, take, All, arith, ◌⊎◌, inl, inr, Bool-cases,
}
use lab_commons.Hpc.Shards.{Range, drop, sum, slice_sum, pack_from, pack}

-- Ranges that follow one another from `start` to `stop`.
abbrev pub Chains : ℕ → ℕ → List Range → Type 0
Chains start stop [] = start ≡ stop
Chains start stop (r ∷ ranges) = (start ≡ r.0) × (r.0 ≤ r.1) × Chains r.1 stop ranges

-- One item or none, or no more than `high` seconds.
abbrev pub IsBounded : List ℕ → ℕ → Range → Type 0
IsBounded seconds high r = (r.1 ≤ r.0 + 1) ⊎ (slice_sum seconds r ≤ high)

-- The seconds of the first items.
abbrev upto : ℕ → List ℕ → ℕ
upto n xs = sum (take n xs)

upto-nil : (n : ℕ) → upto n [] ≡ 0
upto-nil zero = refl
upto-nil (suc n) = refl

minus_zero : (b : ℕ) → b - 0 ≡ b
minus_zero b = omega arith

minus_suc : (b a : ℕ) → suc b - suc a ≡ b - a
minus_suc b a = omega arith

slice-upto : (a b : ℕ) (xs : List ℕ) → a ≤ b → slice_sum xs (a, b) + upto a xs ≡ upto b xs
unfolding slice_sum
slice-upto zero b xs h = omega (arith, ap (λ n. sum (take n xs)) (minus_zero b))
slice-upto (suc a) zero xs h = omega (arith, h)
slice-upto (suc a) (suc b) [] h = omega (arith, upto-nil (suc b - suc a))
slice-upto (suc a) (suc b) (x ∷ xs) h =
    omega
      (arith, slice-upto a b xs (omega arith), ap (λ n. sum (take n (drop a xs))) (minus_suc b a))

module _ (seconds : List ℕ) (low high : ℕ) where
  -- The shard that is open, and the items that are left.
  record Packs (index start held : ℕ) (rest : List ℕ) : Type 0 where
    ordered : start ≤ index
    holds : held + upto start seconds ≡ upto index seconds
    left : (k : ℕ) → upto (index + k) seconds ≡ upto index seconds + upto k rest
    bounded : (index ≤ start + 1) ⊎ (held ≤ high)

  next_upto :
      (index start held cost : ℕ) (rest : List ℕ)
      → Packs index start held (cost ∷ rest)
      → upto (index + 1) seconds ≡ upto index seconds + cost
  next_upto index start held cost rest p = omega (arith, p.left 1)

  next_left :
      (index start held cost : ℕ) (rest : List ℕ)
      → Packs index start held (cost ∷ rest)
      → (k : ℕ) → upto (index + 1 + k) seconds ≡ upto (index + 1) seconds + upto k rest
  next_left index start held cost rest p k =
      let moved : index + suc k ≡ index + 1 + k = omega arith in
      subst (λ n. upto n seconds ≡ upto (index + 1) seconds + upto k rest) moved
        (omega (arith, p.left (suc k), next_upto index start held cost rest p))

  shard-IsBounded :
      (index start held : ℕ) (rest : List ℕ)
      → Packs index start held rest
      → IsBounded seconds high (start, index)
  shard-IsBounded index start held rest p = elim p.bounded [
    | inl few ↦ inl few
    | inr fits ↦ inr (omega (arith, slice-upto start index seconds p.ordered, p.holds))
  ]

  closes :
      (index start held cost : ℕ) (rest : List ℕ)
      → Packs index start held (cost ∷ rest)
      → Packs (index + 1) index cost rest
  closes index start held cost rest p = record {
    ordered = omega arith;
    holds = omega (arith, next_upto index start held cost rest p);
    left = next_left index start held cost rest p;
    bounded = inl (omega arith);
  }

  grows :
      (index start held cost : ℕ) (rest : List ℕ)
      → Packs index start held (cost ∷ rest)
      → (ltb start index && (leb low held || ltb high (held + cost))) ≡ false
      → Packs (index + 1) start (held + cost) rest
  grows index start held cost rest p h = record {
    ordered = omega (arith, p.ordered);
    holds = omega (arith, next_upto index start held cost rest p, p.holds);
    left = next_left index start held cost rest p;
    bounded = elim (Bool-cases (ltb start index)) [
      | inl e ↦ inr (ltb→ge high (held + cost) (ground (arith, e, h)))
      | inr e ↦ inl (omega (arith, ltb→ge start index e))
    ];
  }

  pack_from_lem :
      (index start held : ℕ) (rest : List ℕ)
      → Packs index start held rest
      → Chains start (index + length rest) (pack_from low high index start held rest)
        × All (IsBounded seconds high) (pack_from low high index start held rest)
  unfolding pack_from
  pack_from_lem index start held [] p =
      ((refl, p.ordered, omega arith), (shard-IsBounded index start held [] p, tt))
  pack_from_lem index start held (cost ∷ rest) p =
      elim (Bool-cases (ltb start index && (leb low held || ltb high (held + cost)))) [
        | inl h ↦
            let (c, b) =
              pack_from_lem (index + 1) index cost rest (closes index start held cost rest p) in
            rw h (
              (refl, p.ordered, further (index) (pack_from low high (index + 1) index cost rest) c),
              (shard-IsBounded index start held (cost ∷ rest) p, b),
            )
        | inr h ↦
            let (c, b) =
              pack_from_lem (index + 1) start (held + cost) rest
                (grows index start held cost rest p h) in
            rw h (further start (pack_from low high (index + 1) start (held + cost) rest) c, b)
      ]
    where
      further :
          (a : ℕ) (ranges : List Range)
          → Chains a (index + 1 + length rest) ranges
          → Chains a (index + length (cost ∷ rest)) ranges
      further a ranges c =
          let same : index + 1 + length rest ≡ index + suc (length rest) = omega arith in
          subst (λ n. Chains a n ranges) same c

  -- The ranges of a packing follow one another from the first item to the last, and each holds one item, or
  -- none, or no more than `high` seconds.
  pub pack_lem :
      Chains 0 (length seconds) (pack seconds low high)
      × All (IsBounded seconds high) (pack seconds low high)
  unfolding pack
  pack_lem =
      let all : 0 + length seconds ≡ length seconds = omega arith in
      subst
        (λ n.
          Chains 0 n (pack seconds low high) × All (IsBounded seconds high) (pack seconds low high))
        all
        (pack_from_lem 0 0 0 seconds (record {
          ordered = omega arith;
          holds = refl;
          left = λ k.
              (let same : k ≡ 0 + k = omega arith in
                subst (λ n. upto n seconds ≡ 0 + upto k seconds) same (omega arith));
          bounded = inl (omega arith);
        }))
