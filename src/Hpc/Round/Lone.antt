-- ===== src/Hpc/Round/Lone.antt =====
-- `oom_bounded` of src/lab_commons/hpc/gather.py: nothing is lost, and a lone id waits again twice at most.
use lab_commons.Commons.{
  ℕ, ◌+◌, ◌≤◌, ◌<◌, String, ◌≡◌, refl, ap, ◌∙◌, Bool, true, false, ◌&&◌, ◌||◌, Option, List, [],
  ◌∷◌, ◌++◌, str_eq, eq_iff, ltb, any, if◌then◌else◌, arith, inl, inr, Bool-cases,
}
use lab_commons.Commons.Dict.{Dict, elem, lookup, insert, default, keys, lookup-insert}
use lab_commons.Outcomes.Plain.{Fields}
use lab_commons.Hpc.Round.Covers.{elem-insert, waits, waits-append}
use lab_commons.Hpc.Round.Growth.{
  oom_rounds, ran_alone, Bounded, count_lone, bound_groups, oom_bounded,
}

-- The id has a cell, or waits.
abbrev pub accounted : String → Bounded → Bool
accounted k b = elem k (keys b.cells) || waits k b.kept

kept-accounted :
    (k : String) (group : List String) (b : Bounded)
    → accounted k (record b { kept = b.kept ++ group ∷ [] }) ≡ (accounted k b || elem k group)
kept-accounted k group b = ground (arith, waits-append k b.kept (group ∷ []))

cell-accounted :
    (k node : String) (c : Fields) (lost : Dict ℕ) (b : Bounded)
    → accounted k (record b { lost = lost; cells = insert node c b.cells })
      ≡ (accounted k b || elem k (node ∷ []))
cell-accounted k node c lost b = ground (arith, elem-insert k node c b.cells)

count_lone-accounted :
    (told : ℕ → String) (k node : String) (b : Bounded)
    → accounted k (count_lone told node b) ≡ (accounted k b || elem k (node ∷ []))
unfolding count_lone
count_lone-accounted told k node b =
    let n = default 0 (lookup node b.lost) + 1 in
    elim (Bool-cases (ltb n oom_rounds)) [
      | inl e ↦ rw e (kept-accounted k (node ∷ []) (record b { lost = insert node n b.lost }))
      | inr e ↦ rw e (cell-accounted k node _ (insert node n b.lost) b)
    ]

or_shift : (a b c : Bool) → ((a || b) || c) ≡ (a || (b || c))
or_shift a b c = ground arith

lone_turn :
    (told : ℕ → String) (k node : String) (b : Bounded) (known : Bool)
    → accounted k
        (if known then count_lone told node b else record b { kept = b.kept ++ (node ∷ []) ∷ [] })
      ≡ (accounted k b || elem k (node ∷ []))
lone_turn told k node b true = count_lone-accounted told k node b
lone_turn told k node b false = kept-accounted k (node ∷ []) b

bound_groups-accounted :
    (told : ℕ → String) (alone : List String) (groups : List (List String)) (b : Bounded)
    (k : String)
    → accounted k (bound_groups told alone groups b) ≡ (accounted k b || waits k groups)
unfolding bound_groups
bound_groups-accounted told alone [] b k = ground arith
bound_groups-accounted told alone ((node ∷ []) ∷ groups) b k =
    bound_groups-accounted told alone groups _ k
    ∙ ap (λ t. t || waits k groups) (lone_turn told k node b (elem node alone))
    ∙ or_shift (accounted k b) (elem k (node ∷ [])) (waits k groups)
bound_groups-accounted told alone ([] ∷ groups) b k =
    bound_groups-accounted told alone groups _ k
    ∙ ap (λ t. t || waits k groups) (kept-accounted k [] b)
    ∙ or_shift (accounted k b) (elem k []) (waits k groups)
bound_groups-accounted told alone ((m ∷ n ∷ rest) ∷ groups) b k =
    bound_groups-accounted told alone groups _ k
    ∙ ap (λ t. t || waits k groups) (kept-accounted k (m ∷ n ∷ rest) b)
    ∙ or_shift (accounted k b) (elem k (m ∷ n ∷ rest)) (waits k groups)

-- How often a lone id was killed for memory alone.
abbrev pub losses : String → Dict ℕ → ℕ
losses k lost = default 0 (lookup k lost)

abbrev is_lone : String → List String → Bool
is_lone k [] = false
is_lone k (n ∷ []) = str_eq n k
is_lone k (m ∷ n ∷ rest) = false

-- The id waits in a group of its own.
abbrev pub waits_alone : String → List (List String) → Bool
waits_alone k groups = any (is_lone k) groups

waits_alone-append :
    (k : String) (gs : List (List String)) (g : List String)
    → waits_alone k (gs ++ g ∷ []) ≡ (waits_alone k gs || is_lone k g)
waits_alone-append k [] g = ground arith
waits_alone-append k (h ∷ gs) g = ground (arith, waits_alone-append k gs g)

count_lone-losses :
    (told : ℕ → String) (k node : String) (b : Bounded)
    → losses k (count_lone told node b).lost
      ≡ (if str_eq node k then losses k b.lost + 1 else losses k b.lost)
unfolding count_lone
count_lone-losses told k node b =
    let n = default 0 (lookup node b.lost) + 1 in
    elim (Bool-cases (ltb n oom_rounds)) [
      | inl e ↦ rw e (ground (arith, lookup-insert node k n b.lost, eq_iff node k))
      | inr e ↦ rw e (ground (arith, lookup-insert node k n b.lost, eq_iff node k))
    ]

count_lone-waits :
    (told : ℕ → String) (k node : String) (b : Bounded)
    → waits_alone k (count_lone told node b).kept
      ≡ (waits_alone k b.kept || (str_eq node k && ltb (losses k b.lost + 1) oom_rounds))
unfolding count_lone
count_lone-waits told k node b =
    let n = default 0 (lookup node b.lost) + 1 in
    elim (Bool-cases (ltb n oom_rounds)) [
      | inl e ↦ rw e (ground (arith, waits_alone-append k b.kept (node ∷ []), eq_iff node k, e))
      | inr e ↦ rw e (ground (arith, eq_iff node k, e))
    ]

-- What happens to a lone id between two states of the loop: its losses do not fall, and if it came to wait
-- alone it had been counted once at most, and was counted.
record Counts (k : String) (b after : Bounded) : Type 0 where
  grows : losses k b.lost ≤ losses k after.lost
  counted :
      waits_alone k b.kept ≡ false
      → waits_alone k after.kept ≡ true
      → (losses k b.lost + 1 < oom_rounds) × (losses k b.lost < losses k after.lost)

Counts-kept :
    (k : String) (g : List String) (b : Bounded)
    → is_lone k g ≡ false
    → Counts k b (record b { kept = b.kept ++ g ∷ [] })
Counts-kept k g b h = record {
  grows = omega arith;
  counted =
      λ idle waiting. absurd (ground (arith, waits_alone-append k b.kept g, h, idle, waiting));
}

Counts-lone :
    (told : ℕ → String) (k node : String) (b : Bounded) → Counts k b (count_lone told node b)
Counts-lone told k node b = record {
  grows = ground (arith, count_lone-losses told k node b);
  counted = λ idle waiting. (
    ground (arith, count_lone-waits told k node b, idle, waiting),
    ground (arith, count_lone-waits told k node b, count_lone-losses told k node b, idle, waiting),
  );
}

Counts-trans : {k : String} {a b c : Bounded} → Counts k a b → Counts k b c → Counts k a c
Counts-trans {k} {a} {b} {c} p q = record {
  grows = omega (arith, p.grows, q.grows);
  counted = λ idle waiting. elim (Bool-cases (waits_alone k b.kept)) [
    | inl e ↦ let (few, more) = p.counted idle e in (few, omega (arith, more, q.grows))
    | inr e ↦
        let (few, more) = q.counted e waiting in
        (omega (arith, few, p.grows), omega (arith, more, p.grows))
  ];
}

Counts-turn :
    (told : ℕ → String) (alone : List String) (k node : String) (b : Bounded) (known : Bool)
    → elem k alone ≡ true
    → elem node alone ≡ known
    → Counts k b
        (if known then count_lone told node b else record b { kept = b.kept ++ (node ∷ []) ∷ [] })
Counts-turn told alone k node b true h e = Counts-lone told k node b
Counts-turn told alone k node b false h e =
    Counts-kept k (node ∷ []) b (ground (arith, eq_iff node k, h, e))

bound_groups-Counts :
    (told : ℕ → String) (alone : List String) (groups : List (List String)) (b : Bounded)
    (k : String)
    → elem k alone ≡ true
    → Counts k b (bound_groups told alone groups b)
unfolding bound_groups
bound_groups-Counts told alone [] b k h = record {
  grows = omega arith;
  counted = λ idle waiting. absurd (ground (arith, idle, waiting));
}
bound_groups-Counts told alone ((node ∷ []) ∷ groups) b k h =
    Counts-trans (Counts-turn told alone k node b (elem node alone) h refl)
      (bound_groups-Counts told alone groups _ k h)
bound_groups-Counts told alone ([] ∷ groups) b k h =
    Counts-trans (Counts-kept k [] b refl) (bound_groups-Counts told alone groups _ k h)
bound_groups-Counts told alone ((m ∷ n ∷ rest) ∷ groups) b k h =
    Counts-trans (Counts-kept k (m ∷ n ∷ rest) b refl) (bound_groups-Counts told alone groups _ k h)

module _ (told : ℕ → String) (pending items : List (List String)) (shard_at : ℕ → Option ℕ)
    (states : ℕ → Option String) (lost : Dict ℕ) (cells : Dict Fields) (k : String) where
  -- After the bound on kills for memory, an id has a cell or waits exactly when it did before.
  pub oom_bounded-keeps :
      accounted k (oom_bounded told pending items shard_at states lost cells)
      ≡ (elem k (keys cells) || waits k pending)
  unfolding oom_bounded
  oom_bounded-keeps =
      bound_groups-accounted told (ran_alone shard_at states 0 items) pending
        (record { kept = []; lost = lost; cells = cells }) k
      ∙ ground arith

  -- A lone id that ran alone, in a shard that did not time out, waits alone again only if fewer than two
  -- kills for memory were counted of it, and then one more is.
  pub oom_bounded-counts :
      elem k (ran_alone shard_at states 0 items) ≡ true
      → waits_alone k (oom_bounded told pending items shard_at states lost cells).kept ≡ true
      → (losses k lost + 1 < oom_rounds)
        × (losses k lost
            < losses k (oom_bounded told pending items shard_at states lost cells).lost)
  unfolding oom_bounded
  oom_bounded-counts h w =
      let counts =
        bound_groups-Counts told (ran_alone shard_at states 0 items) pending
          (record { kept = []; lost = lost; cells = cells }) k h in
      counts.counted refl w
