-- ===== src/Hpc/Plan/Split.antt =====
-- The ranges of `split` of src/lab_commons/hpc/span.py, whatever the floats of its targets are.
use lab_commons.Commons.{
  ℕ, zero, suc, ◌+◌, ◌-◌, ◌*◌, ◌≤◌, ◌≡◌, refl, Bool, true, false, List, [], ◌∷◌, ltb, length, arith,
  if◌then◌else◌,
}
use lab_commons.Hpc.Shards.{drop, sum}
use lab_commons.Hpc.Pack.{Chains}
use lab_commons.Hpc.Plan.Span.{nearest, cuts, split}

nearest_bounds :
    (lo target best off i at : ℕ) (seconds : List ℕ)
    → lo ≤ best
    → best ≤ i
    → (lo ≤ nearest target best off i at seconds)
      × (nearest target best off i at seconds ≤ i + length seconds)
unfolding nearest
nearest_bounds lo target best off i at [] h k = omega arith
nearest_bounds lo target best off i at (s ∷ seconds) h k =
    let closer = ltb ((at + s - target) + (target - (at + s))) off in
    let bounds =
      nearest_bounds lo target (if closer then suc i else best)
        (if closer then (at + s - target) + (target - (at + s)) else off) (suc i) (at + s) seconds
        (low closer) (high closer) in
    (bounds.0, omega (arith, bounds.1))
  where
    low : (b : Bool) → lo ≤ (if b then suc i else best)
    low true = omega arith
    low false = omega arith

    high : (b : Bool) → (if b then suc i else best) ≤ suc i
    high true = omega arith
    high false = omega arith

length-drop : (n : ℕ) (xs : List ℕ) → length (drop n xs) ≡ length xs - n
length-drop zero xs = omega arith
length-drop (suc n) [] = omega arith
length-drop (suc n) (x ∷ xs) = omega (arith, length-drop n xs)

cuts-Chains :
    (share : ℕ → ℕ → ℕ) (seconds : List ℕ) (whole acc start : ℕ) (weights : List ℕ)
    → start ≤ length seconds
    → Chains start (length seconds) (cuts share seconds whole acc start weights)
unfolding cuts
cuts-Chains share seconds whole acc start [] h = (refl, h, refl)
cuts-Chains share seconds whole acc start (w ∷ []) h = (refl, h, refl)
cuts-Chains share seconds whole acc start (w ∷ v ∷ weights) h =
    let bounds =
      nearest_bounds start (share (sum seconds * (acc + w)) whole) start _ start _
        (drop start seconds) (omega arith) (omega arith) in
    (
      refl,
      bounds.0,
      cuts-Chains share seconds whole (acc + w) _ (v ∷ weights)
          (omega (arith, bounds.1, length-drop start seconds, h)),
    )

-- Whatever the weights, the ranges of a split follow one another from the first item to the last.
pub split-Chains :
    (share : ℕ → ℕ → ℕ) (seconds weights : List ℕ)
    → Chains 0 (length seconds) (split share seconds weights)
unfolding split
split-Chains share seconds weights =
    cuts-Chains share seconds (sum weights) 0 0 weights (omega arith)
