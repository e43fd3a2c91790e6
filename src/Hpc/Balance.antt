-- ===== src/Hpc/Balance.antt =====
-- The order of `balance` of src/lab_commons/hpc/shards.py.
use lab_commons.Commons.{
  ℕ, zero, suc, ◌+◌, ◌≤◌, ◌<◌, ◌≡◌, refl, ap, ◌∙◌, subst, List, [], ◌∷◌, ◌++◌, map, append-nil,
  append_assoc, leb, length, All, arith, inl, inr, Bool-cases,
}
use mathlib.Core.List.{Permᴰ}
use mathlib.Core.List.Permᴰ
use lab_commons.Hpc.Shards.{
  Range, slowest, enumerate, place_item, longest_first, is_before, pop, put_in, fill, place_index,
  sort_indices, lay_out, counting, empty_loads, greatest, refill,
}

abbrev pub joined : List (List ℕ) → List ℕ
joined [] = []
joined (bin ∷ bins) = bin ++ joined bins

perm_of {ℓ} : {A : Type ℓ} {xs ys : List A} → xs ≡ ys → Permᴰ xs ys
perm_of {xs = xs} e = subst (λ l. Permᴰ xs l) e (Permᴰ.refl xs)

place_item-perm : (i : ℕ × ℕ) (items : List (ℕ × ℕ)) → Permᴰ (place_item i items) (i ∷ items)
place_item-perm i [] = Permᴰ.refl (i ∷ [])
place_item-perm i (j ∷ items) = elim (Bool-cases (leb j.1 i.1)) [
  | inl h ↦ rw h (Permᴰ.refl (i ∷ j ∷ items))
  | inr h ↦ rw h (Permᴰ.trans (Permᴰ.cons refl (place_item-perm i items)) (Permᴰ.swap refl refl))
]

pub longest_first-perm : (items : List (ℕ × ℕ)) → Permᴰ (longest_first items) items
unfolding longest_first
longest_first-perm [] = Permᴰ.nil
longest_first-perm (i ∷ items) =
    Permᴰ.trans (place_item-perm i (longest_first items))
      (Permᴰ.cons refl (longest_first-perm items))

place_index-perm : (i : ℕ) (is : List ℕ) → Permᴰ (place_index i is) (i ∷ is)
place_index-perm i [] = Permᴰ.refl (i ∷ [])
place_index-perm i (j ∷ is) = elim (Bool-cases (leb i j)) [
  | inl h ↦ rw h (Permᴰ.refl (i ∷ j ∷ is))
  | inr h ↦ rw h (Permᴰ.trans (Permᴰ.cons refl (place_index-perm i is)) (Permᴰ.swap refl refl))
]

pub sort_indices-perm : (is : List ℕ) → Permᴰ (sort_indices is) is
unfolding sort_indices
sort_indices-perm [] = Permᴰ.nil
sort_indices-perm (i ∷ is) =
    Permᴰ.trans (place_index-perm i (sort_indices is)) (Permᴰ.cons refl (sort_indices-perm is))

pub lay_out-perm : (start : ℕ) (bins : List (List ℕ)) → Permᴰ (lay_out start bins).0 (joined bins)
unfolding lay_out
lay_out-perm start [] = Permᴰ.nil
lay_out-perm start (bin ∷ bins) =
    Permᴰ.trans (Permᴰ.append_right (lay_out (start + length bin) bins).0 (sort_indices-perm bin))
      (Permᴰ.append_left bin (lay_out-perm (start + length bin) bins))

put_in-perm :
    (n index : ℕ) (bins : List (List ℕ))
    → n < length bins
    → Permᴰ (joined (put_in n index bins)) (index ∷ joined bins)
put_in-perm n index [] h = let no : ⊥ = omega (arith, h) in elim no [ ]
put_in-perm zero index (bin ∷ bins) h =
    Permᴰ.trans (perm_of (append_assoc bin (index ∷ []) (joined bins)))
      (Permᴰ.middle index bin (joined bins))
put_in-perm (suc n) index (bin ∷ bins) h =
    Permᴰ.trans (Permᴰ.append_left bin (put_in-perm n index bins (omega arith)))
      (Permᴰ.middle index bin (joined bins))

pub length-put_in :
    (n index : ℕ) (bins : List (List ℕ)) → length (put_in n index bins) ≡ length bins
length-put_in n index [] = refl
length-put_in zero index (bin ∷ bins) = refl
length-put_in (suc n) index (bin ∷ bins) = ap suc (length-put_in n index bins)

-- Every load is that of one of the first bins.
abbrev pub InBins : ℕ → List (ℕ × ℕ) → Type 0
InBins count loads = All (λ (a : ℕ × ℕ). a.1 < count) loads

pub pop-InBins :
    (count : ℕ) (a : ℕ × ℕ) (loads : List (ℕ × ℕ))
    → a.1 < count
    → InBins count loads
    → ((pop a loads).0.1 < count) × InBins count (pop a loads).1
pop-InBins count a [] h hs = (h, tt)
pop-InBins count a (b ∷ loads) h hs =
    let (least, rest) = pop-InBins count b loads hs.0 hs.1 in
    elim (Bool-cases (is_before (pop b loads).0 a)) [
      | inl e ↦ rw e (least, (h, rest))
      | inr e ↦ rw e (h, (least, rest))
    ]

first_of : ℕ × ℕ → ℕ
first_of i = i.0

fill-perm :
    (count : ℕ) (items : List (ℕ × ℕ)) (a : ℕ × ℕ) (loads : List (ℕ × ℕ)) (bins : List (List ℕ))
    → length bins ≡ count
    → InBins count (a ∷ loads)
    → Permᴰ (joined (fill items (a ∷ loads) bins).1) (map (λ i. i.0) items ++ joined bins)
unfolding fill
fill-perm count [] a loads bins e h = Permᴰ.refl (joined bins)
fill-perm count ((index, cost) ∷ items) a loads bins e h =
    let (least, rest) = pop-InBins count a loads h.0 h.1 in
    let p = pop a loads in
    Permᴰ.trans
      (fill-perm count items (p.0.0 + cost, p.0.1) p.1 (put_in p.0.1 index bins)
        (length-put_in p.0.1 index bins ∙ e) (least, rest))
      (Permᴰ.trans
        (Permᴰ.append_left (map (λ i. i.0) items)
          (put_in-perm p.0.1 index bins (omega (arith, least, e))))
        (Permᴰ.middle index (map (λ i. i.0) items) (joined bins)))

enumerate-counting :
    (n : ℕ) (seconds : List ℕ) → map (λ i. i.0) (enumerate n seconds) ≡ counting n seconds
enumerate-counting n [] = refl
enumerate-counting n (x ∷ seconds) = ap (λ l. n ∷ l) (enumerate-counting (n + 1) seconds)

map-perm : {xs ys : List (ℕ × ℕ)} → Permᴰ xs ys → Permᴰ (map (λ i. i.0) xs) (map (λ i. i.0) ys)
map-perm Permᴰ.nil = Permᴰ.nil
map-perm (Permᴰ.cons e h) = Permᴰ.cons (ap (λ i. i.0) e) (map-perm h)
map-perm (Permᴰ.swap e f) = Permᴰ.swap (ap (λ i. i.0) e) (ap (λ i. i.0) f)
map-perm (Permᴰ.trans h k) = Permᴰ.trans (map-perm h) (map-perm k)

no_bins : (shards : List Range) → joined (map (λ shard. []) shards) ≡ []
no_bins [] = refl
no_bins (r ∷ shards) = no_bins shards

pub length-no_bins :
    (shards : List Range) → length (map {B = List ℕ} (λ shard. []) shards) ≡ length shards
length-no_bins [] = refl
length-no_bins (r ∷ shards) = ap suc (length-no_bins shards)

pub empty_loads-InBins :
    (n count : ℕ) (shards : List Range)
    → n + length shards ≤ count
    → InBins count (empty_loads n shards)
empty_loads-InBins n count [] h = tt
empty_loads-InBins n count (r ∷ shards) h =
    (omega (arith, h), empty_loads-InBins (n + 1) count shards (omega (arith, h)))

filled :
    (seconds : List ℕ) (r : Range) (shards : List Range)
    → Permᴰ
        (joined
          (fill
            (longest_first (enumerate 0 seconds))
            (empty_loads 0 (r ∷ shards))
            (map (λ shard. []) (r ∷ shards))).1)
        (counting 0 seconds)
filled seconds r shards =
    Permᴰ.trans
      (fill-perm (length (r ∷ shards)) (longest_first (enumerate 0 seconds)) (0, 0)
        (empty_loads 1 shards) (map (λ shard. []) (r ∷ shards)) (length-no_bins (r ∷ shards))
        (empty_loads-InBins 0 (length (r ∷ shards)) (r ∷ shards) (omega arith)))
      (Permᴰ.trans
        (perm_of (
          ap (λ l. map (λ i. i.0) (longest_first (enumerate 0 seconds)) ++ l) (no_bins (r ∷ shards))
          ∙ append-nil (map (λ i. i.0) (longest_first (enumerate 0 seconds)))))
        (Permᴰ.trans (map-perm (longest_first-perm (enumerate 0 seconds)))
          (perm_of (enumerate-counting 0 seconds))))

pub refill-perm :
    (seconds : List ℕ) (shards : List Range) → Permᴰ (refill seconds shards).0 (counting 0 seconds)
unfolding refill
refill-perm seconds [] = Permᴰ.refl (counting 0 seconds)
refill-perm seconds (r ∷ shards) =
    let f =
      fill (longest_first (enumerate 0 seconds)) (empty_loads 0 (r ∷ shards))
        (map (λ shard. []) (r ∷ shards)) in
    elim (Bool-cases (leb (slowest seconds (r ∷ shards)) (greatest f.0))) [
      | inl h ↦ rw h (Permᴰ.refl (counting 0 seconds))
      | inr h ↦ rw h (Permᴰ.trans (lay_out-perm 0 f.1) (filled seconds r shards))
    ]
