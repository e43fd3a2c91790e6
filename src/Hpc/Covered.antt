-- ===== src/Hpc/Covered.antt =====
-- The ranges of `balance` of src/lab_commons/hpc/shards.py.
use lab_commons.Commons.{
  ℕ, suc, ◌+◌, ◌≡◌, refl, ap, subst, sym, ◌∙◌, List, [], ◌∷◌, ◌++◌, map, leb, length, length-append,
  arith, inl, inr, Bool-cases,
}
use mathlib.Core.List.{Permᴰ}
use lab_commons.Hpc.Shards.{
  Range, slowest, enumerate, longest_first, pop, put_in, fill, lay_out, counting, empty_loads,
  greatest, refill,
}
use lab_commons.Hpc.Pack.{Chains}
use lab_commons.Hpc.Balance.{joined, length-put_in, length-no_bins, lay_out-perm}

pub length-perm : {xs ys : List ℕ} → Permᴰ xs ys → length xs ≡ length ys
length-perm Permᴰ.nil = refl
length-perm (Permᴰ.cons e h) = ap suc (length-perm h)
length-perm (Permᴰ.swap e g) = refl
length-perm (Permᴰ.trans h k) = length-perm h ∙ length-perm k

length-counting : (n : ℕ) (xs : List ℕ) → length (counting n xs) ≡ length xs
length-counting n [] = refl
length-counting n (x ∷ xs) = ap suc (length-counting (n + 1) xs)

length-fill :
    (items loads : List (ℕ × ℕ)) (bins : List (List ℕ))
    → length (fill items loads bins).1 ≡ length bins
unfolding fill
length-fill [] loads bins = refl
length-fill ((index, cost) ∷ items) [] bins = refl
length-fill ((index, cost) ∷ items) (a ∷ loads) bins =
    let p = pop a loads in
    length-fill items ((p.0.0 + cost, p.0.1) ∷ p.1) (put_in p.0.1 index bins)
    ∙ length-put_in p.0.1 index bins

lay_out-Chains :
    (start : ℕ) (bins : List (List ℕ))
    → Chains start (start + length (joined bins)) (lay_out start bins).1
      × (length (lay_out start bins).1 ≡ length bins)
unfolding lay_out
lay_out-Chains start [] = (omega arith, refl)
lay_out-Chains start (bin ∷ bins) =
    let (chain, count) = lay_out-Chains (start + length bin) bins in
    let stop : start + length bin + length (joined bins) ≡ start + length (bin ++ joined bins) =
      omega (arith, length-append bin (joined bins)) in
    (
      (
        refl,
        omega arith,
        subst (λ n. Chains (start + length bin) n (lay_out (start + length bin) bins).1) stop chain,
      ),
      ap suc count,
    )

-- Ranges that follow one another over the items do so after the refill, and are as many.
pub refill-covers :
    (seconds : List ℕ) (shards : List Range)
    → Chains 0 (length seconds) shards
    → Chains 0 (length (refill seconds shards).0) (refill seconds shards).1
      × (length (refill seconds shards).1 ≡ length shards)
unfolding refill
refill-covers seconds [] h = (subst (λ n. Chains 0 n []) (sym (length-counting 0 seconds)) h, refl)
refill-covers seconds (r ∷ shards) h =
    let f =
      fill (longest_first (enumerate 0 seconds)) (empty_loads 0 (r ∷ shards))
        (map (λ shard. []) (r ∷ shards)) in
    elim (Bool-cases (leb (slowest seconds (r ∷ shards)) (greatest f.0))) [
      | inl e ↦
          rw e (subst (λ n. Chains 0 n (r ∷ shards)) (sym (length-counting 0 seconds)) h, refl)
      | inr e ↦ rw e (
        subst (λ n. Chains 0 n (lay_out 0 f.1).1)
            (let same : 0 + length (joined f.1) ≡ length (joined f.1) = omega arith in
              same ∙ sym (length-perm (lay_out-perm 0 f.1)))
            (lay_out-Chains 0 f.1).0,
        (lay_out-Chains 0 f.1).1
            ∙ length-fill (longest_first (enumerate 0 seconds)) (empty_loads 0 (r ∷ shards))
                (map (λ shard. []) (r ∷ shards))
            ∙ length-no_bins (r ∷ shards),
      )
    ]
