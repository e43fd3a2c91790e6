-- ===== src/Outcomes/Conclusion/Order.antt =====
-- `Conclusion.over` of src/lab_commons/outcomes/conclusion.py and the order of the selection.
use mathlib.Core.List.{Perm, Permᴰ}
use mathlib.Core.Logic.{∥∥₁_elim}
use lab_commons.Commons.{◌≡◌, refl, sym, ap, ◌∙◌, Bool, List, arith, any, all}
use lab_commons.Outcomes.Conclusion.{Conclusion, Selected, over}
use lab_commons.Outcomes.Conclusion.Verdicts.{misses, meets, is_nonempty, over_verdict}

module _ {A : Type 0} (p : A → Bool) where
  any-permᴰ : {xs ys : List A} → Permᴰ xs ys → any p xs ≡ any p ys
  any-permᴰ Permᴰ.nil = refl
  any-permᴰ (Permᴰ.cons e h) = cc (ap p e, any-permᴰ h)
  any-permᴰ (Permᴰ.swap e f) = ground (arith, ap p e, ap p f)
  any-permᴰ (Permᴰ.trans h k) = any-permᴰ h ∙ any-permᴰ k

  all-permᴰ : {xs ys : List A} → Permᴰ xs ys → all p xs ≡ all p ys
  all-permᴰ Permᴰ.nil = refl
  all-permᴰ (Permᴰ.cons e h) = cc (ap p e, all-permᴰ h)
  all-permᴰ (Permᴰ.swap e f) = ground (arith, ap p e, ap p f)
  all-permᴰ (Permᴰ.trans h k) = all-permᴰ h ∙ all-permᴰ k

is_nonempty-permᴰ : {xs ys : List Selected} → Permᴰ xs ys → is_nonempty xs ≡ is_nonempty ys
is_nonempty-permᴰ Permᴰ.nil = refl
is_nonempty-permᴰ (Permᴰ.cons e h) = refl
is_nonempty-permᴰ (Permᴰ.swap e f) = refl
is_nonempty-permᴰ (Permᴰ.trans h k) = is_nonempty-permᴰ h ∙ is_nonempty-permᴰ k

Conclusion-set : IsSet Conclusion
Conclusion-set = hlevel

over-permᴰ : {xs ys : List Selected} → Permᴰ xs ys → over xs ≡ over ys
over-permᴰ {xs} {ys} h =
    over_verdict xs
    ∙ cc (any-permᴰ misses h, all-permᴰ meets h, is_nonempty-permᴰ h)
    ∙ sym (over_verdict ys)

-- Two selections of the same pairs in different orders conclude the same.
pub over-perm : {xs ys : List Selected} → Perm xs ys → over xs ≡ over ys
over-perm {xs} {ys} h = ∥∥₁_elim h (Conclusion-set (over xs) (over ys)) over-permᴰ
