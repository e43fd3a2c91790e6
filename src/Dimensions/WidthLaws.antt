-- ===== src/Dimensions/WidthLaws.antt =====
-- The width of src/lab_commons/width.py against the copies that fit.
use lab_commons.Commons.{
  ℕ, zero, suc, ◌*◌, ◌/◌, ◌≤◌, String, ◌≡◌, refl, sym, ap, ◌∙◌, Bool, true, false, ◌&&◌, Option,
  none, some, List, [], ◌∷◌, ◌↔◌, inl, inr, arith, leb, ◌==◌, all, Result, ok, err, Error, ok_inj,
  if◌then◌else◌, Bool-cases, leb→le, le→leb, &&-intro,
}
use native.Mathlib.Nat.{le-div_iff_mul-le}
use lab_commons.Commons.Int.{ℤ, pos, negsuc}
use lab_commons.Commons.Dict.{Dict, lookup}
use lab_commons.Dimensions.Width.{copies, add_count, counts_of, least, fits}

-- Whether `m` copies of a positive need fit in what the capacity says of its dimension: an unread
-- dimension has room for no copy, one without a ceiling for any number.
abbrev pub has_room : ℕ → ℕ → Option (Option ℤ) → Bool
has_room m q none = m == 0
has_room m q (some none) = true
has_room m q (some (some (pos h))) = leb (m * suc q) h
has_room m q (some (some (negsuc h))) = m == 0

abbrev pub item_has_room : Dict (Option ℤ) → ℕ → String × ℤ → Bool
item_has_room capacity m (name, pos (suc q)) = has_room m q (lookup name capacity)
item_has_room capacity m (name, _) = true

-- `m` copies fit in every dimension.
abbrev pub copies_fit : Dict (Option ℤ) → Dict ℤ → ℕ → Bool
copies_fit capacity demand m = all (item_has_room capacity m) demand

abbrev at_most : ℕ → List ℕ → Bool
at_most m counts = all (λ c. leb m c) counts

has_room-copies : (m q : ℕ) (have : ℤ) → has_room m q (some (some have)) ≡ leb m (copies have q)
has_room-copies m q (pos h) =
    let both = le-div_iff_mul-le {k = suc q} {x = m} {y = h} (omega arith) in
    elim (Bool-cases (leb m (h / suc q))) [
      | inl below ↦ le→leb _ _ (both.0 (leb→le m (h / suc q) below)) ∙ sym below
      | inr above ↦ elim (Bool-cases (leb (m * suc q) h)) [
        | inl room ↦ cc (le→leb _ _ (both.1 (leb→le (m * suc q) h room)))
        | inr no_room ↦ no_room ∙ sym above
      ]
    ]
has_room-copies m q (negsuc h) = ground arith

has_room-count :
    (m q : ℕ) (have : Option ℤ) (counts : List ℕ)
    → at_most m (add_count have q counts) ≡ (has_room m q (some have) && at_most m counts)
has_room-count m q none counts = refl
has_room-count m q (some have) counts =
    ap (λ b. b && at_most m counts) (sym (has_room-copies m q have))

-- What the loop's counts say of the numbers of copies that fit.
abbrev Bounds : (ℕ → Bool) → Option (List ℕ) → Type 0
Bounds fit_of (some counts) = (m : ℕ) → fit_of m ≡ at_most m counts
Bounds fit_of none = (m : ℕ) → fit_of m ≡ (m == 0)

none_has_room : (q : ℕ) (have : Option ℤ) → has_room 0 q (some have) ≡ true
none_has_room q none = refl
none_has_room q (some (pos h)) = ground arith
none_has_room q (some (negsuc h)) = refl

next_count :
    (q : ℕ) (found : Option (Option ℤ)) (rest : Option (List ℕ)) (fit_of : ℕ → Bool)
    → fit_of 0 ≡ true
    → Bounds fit_of rest
    → Bounds
        (λ m. has_room m q found && fit_of m)
        (elim found [
          | none ↦ none
          | some have ↦ elim rest [ none ↦ none | some counts ↦ some (add_count have q counts) ]
        ])
next_count q none rest fit_of z b = row
  where
    row : (m : ℕ) → (m == 0 && fit_of m) ≡ (m == 0)
    row zero = z
    row (suc k) = ground arith
next_count q (some have) none fit_of z b = row
  where
    row : (m : ℕ) → (has_room m q (some have) && fit_of m) ≡ (m == 0)
    row zero = &&-intro _ _ (none_has_room q have) z
    row (suc k) = ground (arith, b (suc k))
next_count q (some have) (some counts) fit_of z b =
    λ m. ap (λ x. has_room m q (some have) && x) (b m) ∙ sym (has_room-count m q have counts)

none_fit : (capacity : Dict (Option ℤ)) (demand : Dict ℤ) → copies_fit capacity demand 0 ≡ true
none_fit capacity [] = refl
none_fit capacity ((name, pos zero) ∷ demand) = none_fit capacity demand
none_fit capacity ((name, negsuc n) ∷ demand) = none_fit capacity demand
none_fit capacity ((name, pos (suc q)) ∷ demand) =
    &&-intro _ _ (room_for_none (lookup name capacity)) (none_fit capacity demand)
  where
    room_for_none : (found : Option (Option ℤ)) → has_room 0 q found ≡ true
    room_for_none none = refl
    room_for_none (some have) = none_has_room q have

counts_of-Bounds :
    (capacity : Dict (Option ℤ)) (demand : Dict ℤ)
    → Bounds (copies_fit capacity demand) (counts_of capacity demand)
unfolding counts_of
counts_of-Bounds capacity [] = λ m. refl
counts_of-Bounds capacity ((name, pos zero) ∷ demand) = counts_of-Bounds capacity demand
counts_of-Bounds capacity ((name, negsuc n) ∷ demand) = counts_of-Bounds capacity demand
counts_of-Bounds capacity ((name, pos (suc q)) ∷ demand) =
    next_count q (lookup name capacity) (counts_of capacity demand) (copies_fit capacity demand)
      (none_fit capacity demand) (counts_of-Bounds capacity demand)

at_most-least : (m c : ℕ) (counts : List ℕ) → leb m (least c counts) ≡ (leb m c && at_most m counts)
at_most-least m c [] = ground arith
at_most-least m c (d ∷ counts) = ground (arith, at_most-least m d counts)

leb_iff : (a b : ℕ) (x : Bool) → x ≡ leb a b → (x ≡ true) ↔ (a ≤ b)
leb_iff a b x h = (λ e. leb→le a b (sym h ∙ e), λ e. h ∙ le→leb a b e)

width_of : Option (List ℕ) → Result ℕ
width_of none = ok 0
width_of (some []) = err Error.value_error
width_of (some (c ∷ counts)) = ok (least c counts)

width-Bounds :
    (o : Option (List ℕ)) (fit_of : ℕ → Bool) (n : ℕ)
    → Bounds fit_of o
    → width_of o ≡ ok n
    → (m : ℕ) → fit_of m ≡ leb m n
unfolding width_of
width-Bounds none fit_of n b h m = b m ∙ ground (arith, ok_inj h)
width-Bounds (some []) fit_of n b h m = cc
width-Bounds (some (c ∷ counts)) fit_of n b h m =
    b m ∙ sym (at_most-least m c counts) ∙ ap (leb m) (ok_inj h)

-- The width that is returned is the largest number of copies that fit in every dimension: so many fit, and
-- as many or fewer is all that does.
pub fits_iff :
    (capacity : Dict (Option ℤ)) (demand : Dict ℤ) (n : ℕ)
    → fits capacity demand ≡ ok n
    → (m : ℕ) → (copies_fit capacity demand m ≡ true) ↔ (m ≤ n)
unfolding fits width_of
fits_iff capacity demand n h m =
    let known = unknown_refused _ _ h in
    leb_iff m n (copies_fit capacity demand m) (
      width-Bounds (counts_of capacity demand) (copies_fit capacity demand) n
        (counts_of-Bounds capacity demand) (sym (width_eq (counts_of capacity demand)) ∙ known) m)
  where
    unknown_refused :
        (b : Bool) (r : Result ℕ) → (if b then err Error.value_error else r) ≡ ok n → r ≡ ok n
    unknown_refused true r e = cc
    unknown_refused false r e = e

    width_eq :
        (o : Option (List ℕ))
        → elim o [
          | none ↦ ok 0
          | some [] ↦ err Error.value_error
          | some (c ∷ counts) ↦ ok (least c counts)
        ]
          ≡ width_of o
    width_eq none = refl
    width_eq (some []) = refl
    width_eq (some (c ∷ counts)) = refl
