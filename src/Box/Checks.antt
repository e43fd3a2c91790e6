-- ===== src/Box/Checks.antt =====
-- The check of a demand, src/lab_commons/box/demand.py, as its readers meet it.
use lab_commons.Commons.{
  ℕ, ◌*◌, ◌/◌, ◌≤◌, String, ◌≡◌, refl, Bool, true, false, ◌&&◌, ◌||◌, [], ◌∷◌, arith, eq_iff, ok,
  Error, guard-eq-ok, >>=-eq-ok, ok_inj, subst, all, ltb, ◌==◌,
}
use lab_commons.Commons.Int.{ℤ, pos, negsuc}
use lab_commons.Commons.Dict.{Dict, lookup}
use lab_commons.Compute.Resources.{Resources, whole, amount, make_resources}
use lab_commons.Box.Demand.{
  cpu_name, mem_name, cores, mem_bytes, wall_ceiling_s, wall_is_bounded, is_whole, is_share,
  books_something, is_bookable, checked,
}

checked-is_bookable :
    (demand : Dict ℤ) (wall : ℤ) (asked : Resources)
    → checked demand wall ≡ ok asked
    → is_bookable asked wall ≡ true
unfolding checked
checked-is_bookable demand wall asked h =
    let (r, _, h1) = >>=-eq-ok (make_resources demand) _ h in
    let (b, h2) = guard-eq-ok (is_bookable r wall) Error.value_error _ h1 in
    subst (λ a. is_bookable a wall ≡ true) (ok_inj h2) b

whole_cores : (n : ℕ) → is_whole n ≡ true → n / whole * whole ≡ n
whole_cores n h = ground arith

bounded_wall :
    (w : ℤ) → wall_is_bounded w ≡ true → (n : ℕ) × (w ≡ pos n) × (1 ≤ n) × (n ≤ wall_ceiling_s)
unfolding wall_is_bounded
bounded_wall (pos n) h = (n, refl, ground arith, ground arith)
bounded_wall (negsuc n) h = cc

five :
    (a b c d e : Bool)
    → (a && b && c && d && e) ≡ true
    → (a ≡ true) × (b ≡ true) × (c ≡ true) × (d ≡ true) × (e ≡ true)
five true true true true true h = (refl, refl, refl, refl, refl)
five _ _ _ _ _ h = ground arith

some_memory : (c m : ℕ) → (c == 0 || ltb 0 m) ≡ true → 1 ≤ c / whole → 1 ≤ m
some_memory c m h q = ground arith

books_none : (asked : Resources) → books_something asked ≡ true → asked ≡ [] → ⊥
books_none [] h e = cc
books_none (i ∷ asked) h e = cc

-- Every name but the two shares has a whole amount.
whole_seats :
    (d : Resources) (k : String)
    → all (λ i. is_share i.0 || is_whole i.1) d ≡ true
    → is_share k ≡ false
    → amount k d / whole * whole ≡ amount k d
unfolding amount lookup
whole_seats [] k h s = refl
whole_seats ((j, n) ∷ d) k h s = ground (arith, whole_seats d k, whole_cores n, eq_iff j k)

-- A demand that passes asks for whole cores and whole seats, for memory when it asks for cores, for
-- something, and for a wall time from one second to seven days.
pub checked_lem :
    (demand : Dict ℤ) (wall : ℤ) (asked : Resources)
    → checked demand wall ≡ ok asked
    → (cores asked * whole ≡ amount cpu_name asked)
      × ((k : String) → is_share k ≡ false → amount k asked / whole * whole ≡ amount k asked)
      × (1 ≤ cores asked → 1 ≤ mem_bytes asked)
      × ((asked ≡ []) → ⊥)
      × ((n : ℕ) × (wall ≡ pos n) × (1 ≤ n) × (n ≤ wall_ceiling_s))
unfolding is_bookable cores mem_bytes
checked_lem demand wall asked h =
    let (c, m, b, w, s) =
      five (is_whole (amount cpu_name asked))
        (amount cpu_name asked == 0 || ltb 0 (amount mem_name asked)) (books_something asked)
        (wall_is_bounded wall) (all (λ i. is_share i.0 || is_whole i.1) asked)
        (checked-is_bookable demand wall asked h) in
    (
      whole_cores (amount cpu_name asked) c,
      λ k. whole_seats asked k s,
      some_memory (amount cpu_name asked) (amount mem_name asked) m,
      books_none asked b,
      bounded_wall wall w,
    )
