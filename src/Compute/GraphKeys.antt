-- ===== src/Compute/GraphKeys.antt =====
-- Dictionaries of units (src/lab_commons/compute/graph.py), cut down round by round: lemmas.
use lab_commons.Commons.{
  ◌≤◌, ◌<◌, String, ◌≡◌, refl, sym, ap, ◌∙◌, Bool, true, false, not, ◌&&◌, ◌||◌, some, List, [],
  ◌∷◌, ◌++◌, arith, str_eq, eq_iff, eq_refl, keep, length, Bool-cases, inl, inr,
}
use lab_commons.Commons.Dict.{Dict, lookup, elem, keys}
use lab_commons.Compute.Vectors.{elem-sorted}
use lab_commons.Compute.Graph.{Node, is_ready, ready_names, without}

-- A dictionary has each name once.
abbrev pub IsDistinct : Dict Node → Type 0
IsDistinct [] = Unit
IsDistinct ((k, u) ∷ d) = (elem k (keys d) ≡ false) × IsDistinct d

pub elem-append : (k : String) (js ks : List String) → elem k (js ++ ks) ≡ (elem k js || elem k ks)
elem-append k [] ks = refl
elem-append k (j ∷ js) ks = ground (arith, elem-append k js ks)

pub elem-keep_keys :
    (p : String × Node → Bool) (k : String) (d : Dict Node)
    → elem k (keys (keep p d)) ≡ true
    → elem k (keys d) ≡ true
elem-keep_keys p k [] h = h
elem-keep_keys p k ((j, u) ∷ d) h = ground (arith, elem-keep_keys p k d)

pub elem-without :
    (k : String) (names : List String) (d : Dict Node)
    → elem k (keys (without names d)) ≡ (elem k (keys d) && not (elem k names))
elem-without k names [] = refl
elem-without k names ((j, u) ∷ d) = ground (arith, elem-without k names d, eq_iff j k)

pub lookup-without :
    (k : String) (names : List String) (d : Dict Node)
    → elem k names ≡ false
    → lookup k (without names d) ≡ lookup k d
unfolding lookup
lookup-without k names [] h = refl
lookup-without k names ((j, u) ∷ d) h = ground (arith, lookup-without k names d, eq_iff j k)

pub without-IsDistinct :
    (names : List String) (d : Dict Node) → IsDistinct d → IsDistinct (without names d)
without-IsDistinct names [] h = h
without-IsDistinct names ((j, u) ∷ d) h =
    ground (arith, without-IsDistinct names d h.1, elem-without j names d)

pub found-kept :
    (p : String × Node → Bool) (k : String) (d : Dict Node)
    → IsDistinct d
    → elem k (keys (keep p d)) ≡ true
    → (u : Node) × (lookup k d ≡ some u) × (p (k, u) ≡ true)
unfolding lookup
found-kept p k [] h e = cc
found-kept p k ((j, u) ∷ d) h e = elim (Bool-cases (str_eq j k)) [
  | inl same ↦
      let here = (eq_iff j k).0 same in
      elim (Bool-cases (p (j, u))) [
        | inl kept ↦ (u, rw same refl, ap (λ i. p (i, u)) (sym here) ∙ kept)
        | inr dropped ↦ absurd (ground (arith, e, dropped, here, h.0, elem-keep_keys p k d))
      ]
  | inr other ↦
      let (v, f, q) = found-kept p k d h.1 (ground (arith, e, other)) in (v, rw other f, q)
]

pub length-keep : (p : String × Node → Bool) (d : Dict Node) → length (keep p d) ≤ length d
length-keep p [] = omega arith
length-keep p (i ∷ d) = ground (arith, length-keep p d)

-- Taking a unit off leaves fewer.
pub length-without :
    (k : String) (names : List String) (d : Dict Node)
    → elem k names ≡ true
    → elem k (keys d) ≡ true
    → length (without names d) < length d
length-without k names [] n h = cc
length-without k names ((j, u) ∷ d) n h =
    ground
      (arith, length-without k names d n, length-keep (λ v. not (elem v.0 names)) d, eq_iff j k)

pub first_ready :
    (k : String) (ks : List String) (done : List String) (left : Dict Node)
    → ready_names done left ≡ k ∷ ks
    → elem k (keys left) ≡ true
first_ready k ks done left h =
    elem-keep_keys (is_ready done) k left
      (sym (elem-sorted k (keys (keep (is_ready done) left))) ∙ ap (elem k) h ∙ rw (eq_refl k))
