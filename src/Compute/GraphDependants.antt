-- ===== src/Compute/GraphDependants.antt =====
-- `dependants` of src/lab_commons/compute/graph.py against the relation that it computes.
use lab_commons.Commons.{
  ℕ, zero, suc, ◌+◌, ◌≤◌, ◌<◌, String, ◌≡◌, refl, sym, ap, ◌∙◌, subst, Bool, true, false, not, ◌&&◌,
  ◌||◌, List, [], ◌∷◌, ◌++◌, any, keep, length, str_eq, eq_iff, eq_refl, arith, ok, ◌⊎◌, inl, inr,
  ◌↔◌, Bool-cases,
}
use lab_commons.Commons.Dict.{Dict, elem, keys}
use lab_commons.Compute.Graph.{
  Node, upstream, reads_any, next_frontier, dependants_from, dependants,
}

-- Among the units.
abbrev pub Among : String × Node → Dict Node → Type 0
Among u [] = ⊥
Among u (v ∷ units) = (u ≡ v) ⊎ Among u units

elem-append : (k : String) (xs ys : List String) → elem k (xs ++ ys) ≡ (elem k xs || elem k ys)
elem-append k [] ys = refl
elem-append k (x ∷ xs) ys = ground (arith, elem-append k xs ys)

-- A name of a test's units has a unit.
keep-unit :
    (p : String × Node → Bool) (k : String) (units : Dict Node)
    → elem k (keys (keep p units)) ≡ true
    → (u : String × Node) × Among u units × (u.0 ≡ k) × (p u ≡ true)
keep-unit p k [] h = cc
keep-unit p k (u ∷ units) h = elim (Bool-cases (p u)) [
  | inl e ↦ elim (Bool-cases (str_eq u.0 k)) [
    | inl same ↦ (u, inl refl, (eq_iff u.0 k).0 same, e)
    | inr other ↦
        let (v, m, f, g) = keep-unit p k units (ground (arith, rw e at h, other)) in
        (v, inr m, f, g)
  ]
  | inr e ↦ let (v, m, f, g) = keep-unit p k units (rw e at h) in (v, inr m, f, g)
]

unit-keep :
    (p : String × Node → Bool) (u : String × Node) (units : Dict Node)
    → Among u units
    → p u ≡ true
    → elem u.0 (keys (keep p units)) ≡ true
unit-keep p u [] m h = elim m [ ]
unit-keep p u (v ∷ units) (inl e) h =
    let f : p v ≡ true = ap p (sym e) ∙ h in
    rw f (rw (ap (λ (w : String × Node). w.0) e) (rw (eq_refl v.0) refl))
unit-keep p u (v ∷ units) (inr m) h = elim (Bool-cases (p v)) [
  | inl f ↦ rw f (ground (arith, unit-keep p u units m h))
  | inr f ↦ rw f (unit-keep p u units m h)
]

any-elem :
    (frontier names : List String)
    → any (λ k. elem k frontier) names ≡ true
    → (k : String) × (elem k names ≡ true) × (elem k frontier ≡ true)
any-elem frontier [] h = cc
any-elem frontier (n ∷ names) h = elim (Bool-cases (elem n frontier)) [
  | inl e ↦ (n, ground (arith, eq_refl n), e)
  | inr e ↦
      let (k, f, g) = any-elem frontier names (ground (arith, e, h)) in (k, ground (arith, f), g)
]

elem-any :
    (k : String) (frontier names : List String)
    → elem k names ≡ true
    → elem k frontier ≡ true
    → any (λ j. elem j frontier) names ≡ true
elem-any k frontier [] h f = cc
elem-any k frontier (n ∷ names) h f = elim (Bool-cases (str_eq n k)) [
  | inl e ↦ ground (arith, ap (λ j. elem j frontier) ((eq_iff n k).0 e), f)
  | inr e ↦ ground (arith, e, h, elem-any k frontier names (ground (arith, e, h)) f)
]

keep_all : (units : Dict Node) → length (keep (λ v. true) units) ≡ length units
keep_all [] = refl
keep_all (v ∷ units) = ap suc (keep_all units)

-- A stronger test keeps no more units, and fewer when it turns one away.
module _ (p q : String × Node → Bool)
    (stronger : (v : String × Node) → q v ≡ true → p v ≡ true) where
  keep-le : (units : Dict Node) → length (keep q units) ≤ length (keep p units)
  keep-le [] = omega arith
  keep-le (v ∷ units) = elim (Bool-cases (q v)) [
    | inl e ↦ rw e (rw (stronger v e) (omega (arith, keep-le units)))
    | inr e ↦ elim (Bool-cases (p v)) [
      | inl f ↦ rw e (rw f (omega (arith, keep-le units)))
      | inr f ↦ rw e (rw f (keep-le units))
    ]
  ]

  keep-lt :
      (u : String × Node) (units : Dict Node)
      → Among u units
      → p u ≡ true
      → q u ≡ false
      → length (keep q units) < length (keep p units)
  keep-lt u [] m h k = elim m [ ]
  keep-lt u (v ∷ units) (inl e) h k =
      rw (ap p (sym e) ∙ h) (rw (ap q (sym e) ∙ k) (omega (arith, keep-le units)))
  keep-lt u (v ∷ units) (inr m) h k = elim (Bool-cases (q v)) [
    | inl e ↦ rw e (rw (stronger v e) (omega (arith, keep-lt u units m h k)))
    | inr e ↦ elim (Bool-cases (p v)) [
      | inl f ↦ rw e (rw f (omega (arith, keep-lt u units m h k)))
      | inr f ↦ rw e (rw f (keep-lt u units m h k))
    ]
  ]

module _ (units : Dict Node) (name : String) where
  -- The unit reads outputs of the name, directly or through others.
  pub data Depends : String → Type 0 where
    directly :
        (n : String) (u : Node) → Among (n, u) units → elem name (upstream u) ≡ true → Depends n
    through :
        (n k : String) (u : Node)
        → Among (n, u) units
        → elem k (upstream u) ≡ true
        → Depends k
        → Depends n

  -- What the loop has found is dependent, and what its frontier is may be the name itself.
  record Sound (frontier found : List String) : Type 0 where
    ahead : (k : String) → elem k frontier ≡ true → (k ≡ name) ⊎ Depends k
    behind : (k : String) → elem k found ≡ true → Depends k
    -- A unit that reads what is found or the name is found, unless what it reads is in the frontier.
    closed :
        (u : String × Node) (k : String)
        → Among u units
        → elem k (upstream u.1) ≡ true
        → (str_eq name k || elem k found) ≡ true
        → (elem k frontier || elem u.0 found) ≡ true

  next_dependent :
      (frontier found : List String) (k : String)
      → Sound frontier found
      → elem k (next_frontier units frontier found) ≡ true
      → Depends k
  next_dependent frontier found k s h =
      let (u, m, e, t) =
        keep-unit (λ u. reads_any frontier u.1 && not (elem u.0 found)) k units h in
      let (j, reads, ahead) = any-elem frontier (upstream u.1) (ground (arith, t)) in
      subst Depends e (elim (s.ahead j ahead) [
        | inl same ↦
            Depends.directly u.0 u.1 m (subst (λ i. elem i (upstream u.1) ≡ true) same reads)
        | inr d ↦ Depends.through u.0 j u.1 m reads d
      ])

  closes :
      (frontier found : List String)
      → Sound frontier found
      → let next = next_frontier units frontier found in
        (u : String × Node) (k : String)
        → Among u units
        → elem k (upstream u.1) ≡ true
        → (str_eq name k || elem k (found ++ next)) ≡ true
        → (elem k next || elem u.0 (found ++ next)) ≡ true
  closes frontier found s u k m reads h =
      let next = next_frontier units frontier found in
      elim (Bool-cases (elem k next)) [
        | inl e ↦ ground (arith, e)
        | inr e ↦
            let old : (str_eq name k || elem k found) ≡ true =
              ground (arith, e, h, elem-append k found next) in
            elim (Bool-cases (elem u.0 found)) [
              | inl f ↦ ground (arith, f, elem-append u.0 found next)
              | inr f ↦
                  let in_frontier : elem k frontier ≡ true =
                    ground (arith, s.closed u k m reads old, f) in
                  let is_next : elem u.0 next ≡ true =
                    unit-keep (λ v. reads_any frontier v.1 && not (elem v.0 found)) u units m
                      (ground (arith, elem-any k frontier (upstream u.1) reads in_frontier, f)) in
                  ground (arith, is_next, elem-append u.0 found next)
            ]
      ]

  next_Sound :
      (frontier found : List String)
      → Sound frontier found
      → Sound (next_frontier units frontier found) (found ++ next_frontier units frontier found)
  next_Sound frontier found s = record {
    ahead = λ k h. inr (next_dependent frontier found k s h);
    behind = λ k h. elim (Bool-cases (elem k found)) [
      | inl e ↦ s.behind k e
      | inr e ↦
          next_dependent frontier found k s
            (ground (arith, e, h, elem-append k found (next_frontier units frontier found)))
    ];
    closed = closes frontier found s;
  }

  -- The units that are not found yet.
  abbrev left : List String → ℕ
  left found = length (keep (λ u. not (elem u.0 found)) units)

  -- There is a round for every unit that is not found yet, unless the loop is over.
  abbrev Spare : ℕ → List String → List String → Type 0
  Spare fuel [] found = Unit
  Spare fuel (k ∷ frontier) found = left found + 1 ≤ fuel

  Spare-next :
      (fuel : ℕ) (frontier found next : List String)
      → next ≡ next_frontier units frontier found
      → left found + 1 ≤ suc fuel
      → Spare fuel next (found ++ next)
  Spare-next fuel frontier found [] e h = tt
  Spare-next fuel frontier found (k ∷ next) e h =
      let (u, m, same, t) =
        keep-unit (λ u. reads_any frontier u.1 && not (elem u.0 found)) k units
          (subst (λ l. elem k l ≡ true) e (ground (arith, eq_refl k))) in
      let fewer : left (found ++ k ∷ next) < left found =
        keep-lt (λ v. not (elem v.0 found)) (λ v. not (elem v.0 (found ++ k ∷ next)))
          (λ v g. ground (arith, g, elem-append v.0 found (k ∷ next))) u units m (ground (arith, t))
          (ground (arith, elem-append u.0 found (k ∷ next), (eq_iff k u.0).1 (sym same))) in
      omega (arith, fewer, h)

  from_lem :
      (fuel : ℕ) (frontier found : List String)
      → Spare fuel frontier found
      → Sound frontier found
      → (all : List String) × (dependants_from fuel units frontier found ≡ ok all) × Sound [] all
  unfolding dependants_from
  from_lem fuel [] found h s = (found, refl, s)
  from_lem zero (k ∷ frontier) found h s = let no : ⊥ = omega (arith, h) in elim no [ ]
  from_lem (suc fuel) (k ∷ frontier) found h s =
      from_lem fuel (next_frontier units (k ∷ frontier) found)
        (found ++ next_frontier units (k ∷ frontier) found)
        (Spare-next fuel (k ∷ frontier) found (next_frontier units (k ∷ frontier) found) refl h)
        (next_Sound (k ∷ frontier) found s)

  start-Sound : Sound (name ∷ []) []
  start-Sound = record {
    ahead = λ k h. inl (sym ((eq_iff name k).0 (ground (arith, h))));
    behind = λ k h. cc;
    closed = λ u k m reads h. ground (arith, h);
  }

  complete : (all : List String) → Sound [] all → (n : String) → Depends n → elem n all ≡ true
  complete all s n (Depends.directly n' u m reads) =
      ground (arith, s.closed (n, u) name m reads (ground (arith, eq_refl name)))
  complete all s n (Depends.through n' k u m reads d) =
      ground (arith, s.closed (n, u) k m reads (ground (arith, complete all s k d)))

  -- The dependants of a name are found within the rounds that the loop is given, and they are exactly the
  -- units that read its outputs, directly or through others.
  pub dependants_lem :
      (all : List String) × (dependants units name ≡ ok all)
      × ((n : String) → (elem n all ≡ true) ↔ Depends n)
  unfolding dependants
  dependants_lem =
      let (all, e, s) =
        from_lem (length units + 1) (name ∷ []) []
          (omega (
            arith,
            keep-le (λ v. true) (λ v. not (elem v.0 [])) (λ v h. refl) units,
            keep_all units,
          ))
          start-Sound in
      (all, e, λ n. (s.behind n, complete all s n))
