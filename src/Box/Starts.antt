-- ===== src/Box/Starts.antt =====
-- `earliest` of src/lab_commons/box/order.py against the ends of the claims.
use lab_commons.Commons.{
  ℕ, ◌<◌, String, ◌≡◌, refl, sym, ap, ◌∙◌, subst, Bool, true, false, ◌||◌, Option, none, some, List,
  [], ◌∷◌, ◌⊎◌, inl, inr, arith, any, ltb, ltb→lt, ◌==◌, if◌then◌else◌, Bool-cases, All,
}
use lab_commons.Commons.Dict.{Dict}
use lab_commons.Box.Demand.{Capacity, Holding}
use lab_commons.Box.Room.{Reading}
use lab_commons.Box.Order.{put_moment, moments, fits, fits_at, first_fit, earliest}

abbrev among : ℕ → List ℕ → Bool
among n ms = any (λ m. m == n) ms

-- A claim ends at this moment.
abbrev pub ends_at : ℕ → List Holding → Bool
ends_at n held = any (λ h. h.deadline == n) held

abbrev IsAscending : List ℕ → Type 0
IsAscending [] = Unit
IsAscending (m ∷ ms) = All (λ n. m < n) ms × IsAscending ms

among-put : (n m : ℕ) (ms : List ℕ) → among n (put_moment m ms) ≡ (m == n || among n ms)
among-put n m [] = refl
among-put n m (i ∷ ms) = ground (arith, among-put n m ms)

among-moments : (n : ℕ) (held : List Holding) → among n (moments held) ≡ ends_at n held
unfolding moments
among-moments n [] = refl
among-moments n (h ∷ held) =
    among-put n h.deadline (moments held) ∙ ap (λ b. h.deadline == n || b) (among-moments n held)

above-put :
    (i m : ℕ) (ms : List ℕ) → i < m → All (λ n. i < n) ms → All (λ n. i < n) (put_moment m ms)
above-put i m [] h a = (h, tt)
above-put i m (j ∷ ms) h a = split (ltb m j) (m == j) (above-put i m ms h a.1)
  where
    split :
        (b c : Bool)
        → All (λ n. i < n) (put_moment m ms)
        → All (λ n. i < n) (if b then m ∷ j ∷ ms else if c then j ∷ ms else j ∷ put_moment m ms)
    split true c put = (h, a)
    split false true put = a
    split false false put = (a.0, put)

above_trans : (i m : ℕ) (ms : List ℕ) → i < m → All (λ n. m < n) ms → All (λ n. i < n) ms
above_trans i m [] h a = tt
above_trans i m (n ∷ ms) h a = (omega (arith, a.0), above_trans i m ms h a.1)

put_moment-IsAscending : (m : ℕ) (ms : List ℕ) → IsAscending ms → IsAscending (put_moment m ms)
put_moment-IsAscending m [] h = (tt, tt)
put_moment-IsAscending m (j ∷ ms) h =
    split (ltb m j) (m == j) refl refl (put_moment-IsAscending m ms h.1)
  where
    split :
        (b c : Bool)
        → ltb m j ≡ b
        → (m == j) ≡ c
        → IsAscending (put_moment m ms)
        → IsAscending (if b then m ∷ j ∷ ms else if c then j ∷ ms else j ∷ put_moment m ms)
    split true c e f put = let below = ltb→lt m j e in ((below, above_trans m j ms below h.0), h)
    split false true e f put = h
    split false false e f put = (above-put j m ms (ground arith) h.0, put)

moments-IsAscending : (held : List Holding) → IsAscending (moments held)
unfolding moments
moments-IsAscending [] = tt
moments-IsAscending (h ∷ held) =
    put_moment-IsAscending h.deadline (moments held) (moments-IsAscending held)

below-All : (n m : ℕ) (ms : List ℕ) → All (λ i. m < i) ms → among n ms ≡ true → m < n
below-All n m [] a h = cc
below-All n m (i ∷ ms) (above, a) h = ground (arith, below-All n m ms a)

some_inj : {a b : ℕ} → Option.some a ≡ some b → a ≡ b
some_inj h = cc

none-some : {a : ℕ} → Option.some a ≡ none → ⊥
none-some h = cc

module _ (fit : ℕ → Bool) where
  first_fit-some :
      (ms : List ℕ) (m : ℕ)
      → IsAscending ms
      → first_fit fit ms ≡ some m
      → (among m ms ≡ true) × (fit m ≡ true) × ((n : ℕ) → among n ms ≡ true → n < m → fit n ≡ false)
  unfolding first_fit
  first_fit-some [] m a h = cc
  first_fit-some (i ∷ ms) m a h = elim (Bool-cases (fit i)) [
    | inl fitting ↦
        let here : i ≡ m = some_inj (rw fitting at h) in
        subst
          (λ x.
            (among x (i ∷ ms) ≡ true)
            × (fit x ≡ true)
            × ((n : ℕ) → among n (i ∷ ms) ≡ true → n < x → fit n ≡ false))
          here (ground arith, fitting, λ n e b. absurd (ground (arith, e, b, below-All n i ms a.0)))
    | inr not_yet ↦
        let (e, f, first) = first_fit-some ms m a.1 (rw not_yet at h) in
        (ground (arith, e), f, λ n e' b. ground (arith, e', b, first n, not_yet))
  ]

  first_fit-none :
      (ms : List ℕ) → first_fit fit ms ≡ none → (n : ℕ) → among n ms ≡ true → fit n ≡ false
  unfolding first_fit
  first_fit-none [] h n e = cc
  first_fit-none (i ∷ ms) h n e = elim (Bool-cases (fit i)) [
    | inl fitting ↦ absurd (none-some (rw fitting at h))
    | inr not_yet ↦ ground (arith, e, not_yet, first_fit-none ms (rw not_yet at h) n)
  ]

module _ (os : String) (capacity : Capacity) (held : List Holding) (reading : Reading)
    (demand : Dict ℕ) (now : ℕ) where
  abbrev start : Option ℕ
  start = earliest os capacity held reading demand now

  abbrev fits_after : ℕ → Bool
  fits_after = fits_at os capacity held reading demand

  -- A start that is found is now, when the demand fits now; otherwise a claim ends then, the demand fits
  -- once every claim that has ended by then has left, and at no earlier end of a claim would it fit.
  pub earliest-some :
      (m : ℕ)
      → start ≡ some m
      → (fits os capacity held reading demand ≡ true) × (m ≡ now)
        ⊎ (fits os capacity held reading demand ≡ false)
          × (ends_at m held ≡ true)
          × (fits_after m ≡ true)
          × ((n : ℕ) → ends_at n held ≡ true → n < m → fits_after n ≡ false)
  unfolding earliest
  earliest-some m h = elim (Bool-cases (fits os capacity held reading demand)) [
    | inl at_once ↦ inl (at_once, sym (some_inj (rw at_once at h)))
    | inr not_yet ↦
        let (e, f, first) =
          first_fit-some fits_after (moments held) m (moments-IsAscending held) (rw not_yet at h) in
        inr (
          not_yet,
          sym (among-moments m held) ∙ e,
          f,
          λ n e' b. first n (among-moments n held ∙ e') b,
        )
  ]

  -- No start is found only when the demand fits neither now nor at the end of any claim.
  pub earliest-none :
      start ≡ none
      → (fits os capacity held reading demand ≡ false)
        × ((n : ℕ) → ends_at n held ≡ true → fits_after n ≡ false)
  unfolding earliest
  earliest-none h = elim (Bool-cases (fits os capacity held reading demand)) [
    | inl at_once ↦ absurd (none-some (rw at_once at h))
    | inr not_yet ↦ (
      not_yet,
      λ n e.
          first_fit-none fits_after (moments held) (rw not_yet at h) n (among-moments n held ∙ e),
    )
  ]
