-- ===== src/Engine/PartSums.antt =====
-- The grouping of a demand in `Engine._hold` of src/lab_commons/resources/engine.py: amounts of its parts.
use lab_commons.Commons.{
  ℕ, ◌+◌, String, ◌≡◌, refl, sym, ap, ◌∙◌, subst, Bool, false, ◌&&◌, ◌||◌, Option, List, [], ◌∷◌,
  any, All, str_eq, eq_iff, arith, sum_of, if◌then◌else◌, Bool-cases, inl, inr, Result, ok,
  >>=-eq-ok, ok_inj,
}
use lab_commons.Commons.Dict.{Dict, elem, keys}
use lab_commons.Compute.Resources.{amount}
use lab_commons.Compute.Unique.{IsUnique, IsUnique-insert, elem-insert}
use lab_commons.Compute.Vectors.{amount_absent}
use lab_commons.Engine.Kinds.{Kind, kind_of}
use lab_commons.Engine.Holds.{Part, same_kind, same_window, put_part, parts_into, window_for}
use lab_commons.Engine.Parts.{amount-insert}

abbrev pub part_amount : String → Part → ℕ
part_amount k p = amount k p.demand

abbrev pub PartIsUnique : Part → Type 0
PartIsUnique p = IsUnique p.demand

-- Some part has the name.
abbrev pub in_parts : String → List Part → Bool
in_parts k parts = any (λ (p : Part). elem k (keys p.demand)) parts

module _ (kind : Kind) (window : Option String) (name : String) (n : ℕ) where
  in-put_part :
      (k : String) (parts : List Part)
      → in_parts k (put_part kind window name n parts) ≡ (str_eq name k || in_parts k parts)
  unfolding put_part
  in-put_part k [] = ground arith
  in-put_part k (p ∷ parts) =
      elim (Bool-cases (same_kind p.kind kind && same_window p.window window)) [
        | inl h ↦ rw h (ground (arith, elem-insert k name n p.demand))
        | inr h ↦ rw h (ground (arith, in-put_part k parts))
      ]

  put_part-IsUnique :
      (parts : List Part)
      → All PartIsUnique parts
      → All PartIsUnique (put_part kind window name n parts)
  unfolding put_part
  put_part-IsUnique [] h = ((refl, tt), tt)
  put_part-IsUnique (p ∷ parts) h =
      elim (Bool-cases (same_kind p.kind kind && same_window p.window window)) [
        | inl e ↦ rw e (IsUnique-insert name n p.demand h.0, h.1)
        | inr e ↦ rw e (h.0, put_part-IsUnique parts h.1)
      ]

  sum-put_part :
      (k : String) (parts : List Part)
      → in_parts name parts ≡ false
      → sum_of (part_amount k) (put_part kind window name n parts)
        ≡ sum_of (part_amount k) parts + (if str_eq name k then n else 0)
  unfolding put_part amount
  sum-put_part k [] h = ground arith
  sum-put_part k (p ∷ parts) h =
      elim (Bool-cases (same_kind p.kind kind && same_window p.window window)) [
        | inl e ↦ rw e (
            ground (
              arith,
              amount-insert k name n p.demand,
              amount_absent name p.demand,
              eq_iff name k,
              h,
            ))
        | inr e ↦ rw e (ground (arith, sum-put_part k parts, h))
      ]

module _ (is_tool : String → Bool) (window_of : String → Result (String × ℕ)) where
  -- None of the names is in the parts yet.
  abbrev Fresh : List Part → Dict ℕ → Type 0
  Fresh parts d = All (λ (i : String × ℕ). in_parts i.0 parts ≡ false) d

  put_part-Fresh :
      (kind : Kind) (window : Option String) (name : String) (n : ℕ) (parts : List Part)
      (d : Dict ℕ)
      → elem name (keys d) ≡ false
      → Fresh parts d
      → Fresh (put_part kind window name n parts) d
  put_part-Fresh kind window name n parts [] e h = tt
  put_part-Fresh kind window name n parts ((j, m) ∷ d) e h = (
    ground (arith, in-put_part kind window name n j parts, h.0, e, eq_iff name j, eq_iff j name),
    put_part-Fresh kind window name n parts d (ground (arith, e)) h.1,
  )

  pub parts_into-amounts :
      (parts made : List Part) (demand : Dict ℕ)
      → parts_into is_tool window_of parts demand ≡ ok made
      → IsUnique demand
      → Fresh parts demand
      → All PartIsUnique parts
      → All PartIsUnique made
        × ((k : String)
            → sum_of (part_amount k) made ≡ sum_of (part_amount k) parts + amount k demand)
  unfolding parts_into amount
  parts_into-amounts parts made [] h u f a = (
    subst (λ m. All PartIsUnique m) (ok_inj h) a,
    λ k. ap (sum_of (part_amount k)) (sym (ok_inj h)) ∙ omega arith,
  )
  parts_into-amounts parts made ((name, n) ∷ demand) h u f a =
      let (kind, _, h1) = >>=-eq-ok (kind_of is_tool name) _ h in
      let (window, _, h2) = >>=-eq-ok (window_for is_tool window_of kind name) _ h1 in
      let (b, s) =
        parts_into-amounts (put_part kind window name n parts) made demand h2 u.1
          (put_part-Fresh kind window name n parts demand u.0 f.1)
          (put_part-IsUnique kind window name n parts a) in
      (
        b,
        λ k. ground (
          arith,
          s k,
          sum-put_part kind window name n k parts f.0,
          eq_iff name k,
          amount_absent name demand u.0,
        ),
      )
