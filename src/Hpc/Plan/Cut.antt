-- ===== src/Hpc/Plan/Cut.antt =====
-- `_shards` and `one_wave` of src/lab_commons/hpc/shards.py. The growth of the bounds by a tenth (`grow`) and the
-- quotient of floats that they start from (`share`) are arguments, as the code's floats are amounts here.
use lab_commons.Commons.{
  ℕ, zero, suc, ◌+◌, ◌*◌, ◌≤◌, ◌<◌, ◌≡◌, refl, ap, subst, sym, ◌∙◌, Bool, true, false, ◌&&◌, ◌||◌,
  Option, none, some, List, [], ◌∷◌, leb, ltb, ltb→ge, length, min, max, arith, if◌then◌else◌, inl,
  inr, Bool-cases,
}
use lab_commons.Hpc.Shards.{Range, sum, pack, pack_from, wall}
use lab_commons.Hpc.Pack.{Chains, pack_lem}

-- The window of a shard in the unit of the seconds, the most tasks of an array, and the unit's minute.
pub record Policy : Type 0 where
  pub low : ℕ
  pub high : ℕ
  pub max_array : ℕ
  pub minute : ℕ
  pub pad : ℕ → ℕ
  pub grow : ℕ → ℕ
  pub share : ℕ → ℕ → ℕ

abbrev pub capped : ℕ → Option ℕ → ℕ
capped n none = n
capped n (some room) = min n room

-- The loop of `_shards`, on fuel.
unfoldable pub shards_loop : ℕ → (ℕ → ℕ) → List ℕ → ℕ → ℕ → ℕ → List Range
unfolding pack
shards_loop zero grow seconds cap low high = pack seconds low high
shards_loop (suc fuel) grow seconds cap low high =
    let more = shards_loop fuel grow seconds cap (grow low) (grow high) in
    if ltb cap (length (pack seconds low high)) then more else pack seconds low high

-- `_shards(seconds, policy, room)`: the bounds grow in each round, so one more than the sum is enough.
unfoldable pub shards_of : List ℕ → Policy → Option ℕ → List Range
unfolding shards_loop
shards_of seconds policy room =
    let cap = capped policy.max_array room in
    let floor = policy.share (sum seconds) cap in
    shards_loop (suc (sum seconds)) policy.grow seconds cap (max policy.low floor)
      (max policy.high floor)

-- `one_wave(padded, policy, room, at_once=at_once, ceiling=ceiling)`
unfoldable pub one_wave : List ℕ → Policy → Option ℕ → ℕ → Option ℕ → List Range × ℕ
unfolding shards_of wall
one_wave padded policy room at_once ceiling =
    let first = shards_of padded policy (some (capped at_once room)) in
    let second = shards_of padded policy room in
    let over : Bool = elim ceiling [
      | none ↦ false
      | some top ↦ ltb top (wall policy.minute padded first * policy.minute)
    ] in
    let shards = if over then second else first in (shards, wall policy.minute padded shards)

-- Bounds past the whole sum leave one shard.
pack_whole :
    (low high index start held : ℕ) (seconds : List ℕ)
    → held + sum seconds < low
    → held + sum seconds ≤ high
    → pack_from low high index start held seconds ≡ (start, index + length seconds) ∷ []
unfolding pack_from
pack_whole low high index start held [] h k = ap (λ n. (start, n) ∷ []) (omega arith)
pack_whole low high index start held (cost ∷ seconds) h k =
    let not_full : leb low held ≡ false = ground arith in
    let fits : ltb high (held + cost) ≡ false = ground arith in
    rw (not_full, fits)
      (rw (stays (ltb start index)) (
        pack_whole low high (index + 1) start (held + cost) seconds (omega arith) (omega arith)
        ∙ ap (λ n. (start, n) ∷ []) (omega arith)))
  where
    stays : (b : Bool) → (b && (false || false)) ≡ false
    stays true = refl
    stays false = refl

module _ (grow : ℕ → ℕ) (grows : (n : ℕ) → 0 < n → n < grow n) (seconds : List ℕ) (cap : ℕ)
    (some_cap : 0 < cap) where
  shards_loop_le :
      (fuel low high : ℕ)
      → 0 < low
      → 0 < high
      → sum seconds < low + fuel
      → sum seconds < high + fuel
      → length (shards_loop fuel grow seconds cap low high) ≤ cap
  unfolding shards_loop pack
  shards_loop_le zero low high some_low some_high h k =
      subst (λ (l : List Range). length l ≤ cap)
        (sym (pack_whole low high 0 0 0 seconds (omega arith) (omega arith))) (omega arith)
  shards_loop_le (suc fuel) low high some_low some_high h k =
      elim (Bool-cases (ltb cap (length (pack seconds low high)))) [
        | inl e ↦ rw e (
            shards_loop_le fuel (grow low) (grow high) (omega (arith, grows low some_low))
              (omega (arith, grows high some_high)) (omega (arith, grows low some_low))
              (omega (arith, grows high some_high)))
        | inr e ↦ rw e (ltb→ge _ _ e)
      ]

shards_loop-Chains :
    (fuel : ℕ) (grow : ℕ → ℕ) (seconds : List ℕ) (cap low high : ℕ)
    → Chains 0 (length seconds) (shards_loop fuel grow seconds cap low high)
unfolding shards_loop
shards_loop-Chains zero grow seconds cap low high = (pack_lem seconds low high).0
shards_loop-Chains (suc fuel) grow seconds cap low high =
    elim (Bool-cases (ltb cap (length (pack seconds low high)))) [
      | inl e ↦ rw e (shards_loop-Chains fuel grow seconds cap (grow low) (grow high))
      | inr e ↦ rw e (pack_lem seconds low high).0
    ]

pub shards_of-Chains :
    (seconds : List ℕ) (policy : Policy) (room : Option ℕ)
    → Chains 0 (length seconds) (shards_of seconds policy room)
unfolding shards_of
shards_of-Chains seconds policy room =
    let cap = capped policy.max_array room in
    let floor = policy.share (sum seconds) cap in
    shards_loop-Chains (suc (sum seconds)) policy.grow seconds cap (max policy.low floor)
      (max policy.high floor)

-- The bounds of a shard are not zero, and grow when they are multiplied.
abbrev pub Grows : Policy → Type 0
Grows policy = (0 < policy.low) × (0 < policy.high) × ((n : ℕ) → 0 < n → n < policy.grow n)

-- When the bounds are not zero and grow, and there is room for a task, the shards are no more than the array and the room take,
-- and their ranges follow one another from the first item to the last.
pub shards_of_lem :
    (seconds : List ℕ) (policy : Policy) (room : Option ℕ)
    → Grows policy
    → 0 < capped policy.max_array room
    → (length (shards_of seconds policy room) ≤ capped policy.max_array room)
      × Chains 0 (length seconds) (shards_of seconds policy room)
unfolding shards_of
shards_of_lem seconds policy room grows some_cap = (
  shards_loop_le policy.grow grows.2 seconds (capped policy.max_array room) some_cap
      (suc (sum seconds)) _ _ (omega (arith, grows.0)) (omega (arith, grows.1)) (omega arith)
      (omega arith),
  shards_of-Chains seconds policy room,
)
