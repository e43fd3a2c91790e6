-- ===== src/Hpc/Shards.antt =====
-- src/lab_commons/hpc/shards.py: `_pack`, `balance` and `_wall`. Seconds are natural numbers of one unit, of
-- which `minute` are a minute; a shard is the range of its items, its end not included.
use lab_commons.Commons.{
  Result, ok, err, Error, ℕ, zero, suc, ◌+◌, ◌-◌, ◌/◌, Bool, true, false, ◌&&◌, ◌||◌, List, [], ◌∷◌,
  ◌++◌, map, ltb, leb, ◌==◌, max, length, take, if◌then◌else◌, sum_of,
}

abbrev pub Range : Type 0
Range = ℕ × ℕ

abbrev pub drop {ℓ} : {A : Type ℓ} → ℕ → List A → List A
drop zero xs = xs
drop (suc n) [] = []
drop (suc n) (x ∷ xs) = drop n xs

abbrev pub sum : List ℕ → ℕ
sum xs = sum_of (λ x. x) xs

-- `sum(seconds[a:b])`
unfoldable pub slice_sum : List ℕ → Range → ℕ
slice_sum seconds (a, b) = sum (take (b - a) (drop a seconds))

-- The loop of `_pack` from the item `index`, with the shard that began at `start` and holds `held`.
unfoldable pub pack_from : ℕ → ℕ → ℕ → ℕ → ℕ → List ℕ → List Range
pack_from low high index start held [] = (start, index) ∷ []
pack_from low high index start held (cost ∷ seconds) =
    let closed = pack_from low high (index + 1) index cost seconds in
    let grown = pack_from low high (index + 1) start (held + cost) seconds in
    if ltb start index && (leb low held || ltb high (held + cost))
    then (start, index) ∷ closed
    else grown

-- `_pack(seconds, low, high)`
unfoldable pub pack : List ℕ → ℕ → ℕ → List Range
unfolding pack_from
pack seconds low high = pack_from low high 0 0 0 seconds

abbrev pub slowest : List ℕ → List Range → ℕ
slowest seconds [] = 0
slowest seconds (shard ∷ shards) = max (slice_sum seconds shard) (slowest seconds shards)

-- `_wall(seconds, shards)`, in whole minutes, of shards that are not none.
unfoldable pub wall : ℕ → List ℕ → List Range → ℕ
unfolding slice_sum
wall minute seconds shards = max 1 ((slowest seconds shards + (minute - 1)) / minute)

abbrev pub enumerate : ℕ → List ℕ → List (ℕ × ℕ)
enumerate n [] = []
enumerate n (cost ∷ seconds) = (n, cost) ∷ enumerate (n + 1) seconds

abbrev pub place_item : ℕ × ℕ → List (ℕ × ℕ) → List (ℕ × ℕ)
place_item i [] = i ∷ []
place_item i (j ∷ items) =
    let later = place_item i items in if leb j.1 i.1 then i ∷ j ∷ items else j ∷ later

-- `sorted(range(len(seconds)), key=lambda i: -seconds[i])`, each index with its seconds.
unfoldable pub longest_first : List (ℕ × ℕ) → List (ℕ × ℕ)
longest_first [] = []
longest_first (i ∷ items) = place_item i (longest_first items)

-- A load with the number of its bin, before another in the heap's order.
abbrev pub is_before : ℕ × ℕ → ℕ × ℕ → Bool
is_before a b = ltb a.0 b.0 || a.0 == b.0 && ltb a.1 b.1

-- `heapq.heappop(loads)` of the loads `a ∷ loads`: the least, and the rest.
abbrev pub pop : ℕ × ℕ → List (ℕ × ℕ) → (ℕ × ℕ) × List (ℕ × ℕ)
pop a [] = (a, [])
pop a (b ∷ loads) =
    let (least, rest) = pop b loads in
    if is_before least a then (least, a ∷ rest) else (a, least ∷ rest)

-- `bins[n].append(index)`
abbrev pub put_in : ℕ → ℕ → List (List ℕ) → List (List ℕ)
put_in n index [] = []
put_in zero index (bin ∷ bins) = (bin ++ index ∷ []) ∷ bins
put_in (suc n) index (bin ∷ bins) = bin ∷ put_in n index bins

-- The loop of `balance`: the loads and the bins.
unfoldable pub fill : List (ℕ × ℕ) → List (ℕ × ℕ) → List (List ℕ) → List (ℕ × ℕ) × List (List ℕ)
fill [] loads bins = (loads, bins)
fill ((index, cost) ∷ items) [] bins = ([], bins)
fill ((index, cost) ∷ items) (a ∷ loads) bins =
    let ((load, n), rest) = pop a loads in
    fill items ((load + cost, n) ∷ rest) (put_in n index bins)

abbrev pub place_index : ℕ → List ℕ → List ℕ
place_index i [] = i ∷ []
place_index i (j ∷ js) = let later = place_index i js in if leb i j then i ∷ j ∷ js else j ∷ later

-- `sorted(members)`
unfoldable pub sort_indices : List ℕ → List ℕ
sort_indices [] = []
sort_indices (i ∷ is) = place_index i (sort_indices is)

-- The last loop of `balance`: the order of the items and the ranges of the bins, from `start`.
unfoldable pub lay_out : ℕ → List (List ℕ) → List ℕ × List Range
unfolding sort_indices
lay_out start [] = ([], [])
lay_out start (members ∷ bins) =
    let stop = start + length members in
    let (order, ranges) = lay_out stop bins in
    (sort_indices members ++ order, (start, stop) ∷ ranges)

abbrev pub counting : ℕ → List ℕ → List ℕ
counting n [] = []
counting n (x ∷ xs) = n ∷ counting (n + 1) xs

abbrev pub empty_loads : ℕ → List Range → List (ℕ × ℕ)
empty_loads n [] = []
empty_loads n (shard ∷ shards) = (0, n) ∷ empty_loads (n + 1) shards

abbrev pub greatest : List (ℕ × ℕ) → ℕ
greatest [] = 0
greatest (a ∷ loads) = max a.0 (greatest loads)

abbrev pub is_none : List Range → Bool
is_none [] = true
is_none (shard ∷ shards) = false

-- `balance` of shards that are not none, or of no items.
unfoldable pub refill : List ℕ → List Range → List ℕ × List Range
unfolding slice_sum longest_first fill lay_out
refill seconds shards =
    let (loads, bins) =
      fill (longest_first (enumerate 0 seconds)) (empty_loads 0 shards)
        (map (λ shard. []) shards) in
    if is_none shards || leb (slowest seconds shards) (greatest loads)
    then (counting 0 seconds, shards)
    else lay_out 0 bins

abbrev pub has_items : List ℕ → Bool
has_items [] = false
has_items (cost ∷ seconds) = true

-- `balance(seconds, shards)`: the first item has no bin to go to when there are no shards.
unfoldable pub balance : List ℕ → List Range → Result (List ℕ × List Range)
unfolding refill
balance seconds shards =
    if is_none shards && has_items seconds
    then err Error.index_error
    else ok (refill seconds shards)
