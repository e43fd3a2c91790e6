-- ===== src/Hpc/Plan/Spread.antt =====
-- `span` (src/lab_commons/hpc/span.py): what the placements of a batch may be relied on for.
use lab_commons.Commons.{
  ℕ, suc, ◌+◌, ◌-◌, ◌<◌, ◌≡◌, refl, ap, subst, sym, ◌∙◌, true, false, Option, none, some, List, [],
  ◌∷◌, map, ltb, leb, ◌==◌, length, take, take-length, All, if◌then◌else◌, Result, ok, err,
  >>=-eq-ok, ok_inj, arith, inl, inr, Bool-cases,
}
use lab_commons.Hpc.Shards.{Range, sum}
use lab_commons.Hpc.Pack.{Chains}
use lab_commons.Hpc.Plan.Quota.{Snapshot}
use lab_commons.Hpc.Plan.Cut.{Grows}
use lab_commons.Hpc.Plan.Make.{Plan}
use lab_commons.Hpc.Plan.Session.{session_room}
use lab_commons.Hpc.Plan.Grant.{
  is_placed, Grant, Batch, Candidates, snapshots_of, plan_for, allocate,
}
use lab_commons.Hpc.Plan.Span.{
  Placement, Able, add_able, able_of, slice, add_slice, slices_of, spread_or, cuts, split, span,
  throttles, slowest_of, is_over_cap,
}
use lab_commons.Hpc.Plan.Split.{split-Chains}
use lab_commons.Hpc.Plan.Chosen.{
  IsAmong, AllAmong-self, Placed, IsHeld, plan_for-IsSound, allocate-IsOption,
}

some_inj {ℓ} : {A : Type ℓ} {a b : A} → some a ≡ some b → a ≡ b
some_inj h = cc

module _ (b : Batch) (grows : Grows b.policy) (arrays : 0 < b.policy.max_array)
    (candidates : Candidates) where
  -- A placement's plan is sound for its slice, on a candidate of its grant.
  abbrev pub IsPlaced : Placement → Type 0
  IsPlaced p = Placed b candidates (length (slice b.seconds p.items)) p.grant p.plan

  abbrev pub items_of : List Placement → List Range
  items_of placements = map (λ (p : Placement). p.items) placements

  abbrev Spreads : ℕ → ℕ → List Placement → Type 0
  Spreads start stop placements = Chains start stop (items_of placements) × All IsPlaced placements

  -- The grant of each, with its snapshot, is a candidate.
  abbrev Ables : List Able → Type 0
  Ables able = All (λ (a : Able). IsAmong (a.grant, a.snapshot) candidates) able

  add_able-Ables :
      (snapshots : List Snapshot) (index : ℕ) (g : Grant) (s : Snapshot) (made : Result Plan)
      (rest : List Able)
      → IsAmong (g, s) candidates
      → Ables rest
      → Ables (add_able b snapshots index g s made rest)
  unfolding add_able
  add_able-Ables snapshots index g s (err why) rest m all = all
  add_able-Ables snapshots index g s (ok whole) rest m all =
      elim (Bool-cases (is_placed b.paging index whole.minutes b.cost snapshots b.rerun_safe)) [
        | inl e ↦ rw (e, All) (m, all)
        | inr e ↦ rw (e, All) all
      ]

  able_of-Ables :
      (snapshots : List Snapshot) (index : ℕ) (some_of : Candidates)
      → All (λ c. IsAmong c candidates) some_of
      → Ables (able_of b snapshots index some_of)
  unfolding able_of
  able_of-Ables snapshots index [] all = tt
  able_of-Ables snapshots index ((g, s) ∷ some_of) (m, all) =
      add_able-Ables snapshots index g s (plan_for b g s) (able_of b snapshots (suc index) some_of)
        m (able_of-Ables snapshots (suc index) some_of all)

  skip_empty :
      (start i j stop : ℕ) (placements : List Placement)
      → start ≡ i
      → (i == j) ≡ true
      → Spreads j stop placements
      → Spreads start stop placements
  skip_empty start i j stop placements e f spreads =
      let same : j ≡ start = ground (arith, e, f) in
      subst (λ n. Spreads n stop placements) same spreads

  add_slice-some :
      (a : Able) (r : Range) (made : Result Plan) (rest : Option (List Placement))
      {placements : List Placement}
      → add_slice a r made rest ≡ some placements
      → (part : Plan) × (later : List Placement) × (made ≡ ok part)
        × (rest ≡ some later)
        × (record { grant = a.grant; plan = part; items = r } ∷ later ≡ placements)
  unfolding add_slice
  add_slice-some a r (err _) rest h = cc
  add_slice-some a r (ok part) none h = cc
  add_slice-some a r (ok part) (some later) h = (part, later, refl, refl, some_inj h)

  slices_of-Spreads :
      (able : List Able) (ranges : List Range) (start stop : ℕ) {placements : List Placement}
      → Ables able
      → length able ≡ length ranges
      → Chains start stop ranges
      → slices_of b able ranges ≡ some placements
      → Spreads start stop placements
  unfolding slices_of
  slices_of-Spreads [] [] start stop ables lengths chain h =
      subst (Spreads start stop) (some_inj h) (chain, tt)
  slices_of-Spreads [] (r ∷ ranges) start stop ables lengths chain h =
      absurd (omega (arith, lengths))
  slices_of-Spreads (a ∷ able) [] start stop ables lengths chain h = absurd (omega (arith, lengths))
  slices_of-Spreads (a ∷ able) ((i, j) ∷ ranges) start stop (m, ables) lengths (e, le, chain) h =
      let rest = λ (ps : List Placement) (g : slices_of b able ranges ≡ some ps).
        slices_of-Spreads able ranges j stop {placements = ps} ables (omega (arith, lengths)) chain
          g in
      elim (Bool-cases (i == j)) [
        | inl empty ↦ skip_empty start i j stop _ e empty (rest _ (rw empty at h))
        | inr full ↦
            let g = rw full at h in
            elim (Bool-cases (ltb (b.policy.pad (sum (slice b.seconds (i, j)))) b.policy.low)) [
              | inl short ↦ absurd (ground (arith, short, g))
              | inr enough ↦
                  let (part, later, made, more, same) =
                    add_slice-some a (i, j)
                      (plan_for (record b { seconds = slice b.seconds (i, j) }) a.grant a.snapshot)
                      (slices_of b able ranges) (rw enough at g) in
                  let (tail, all) = rest later more in
                  subst (Spreads start stop) same (
                    (e, le, tail),
                    (
                      (
                        a.snapshot,
                        m,
                        plan_for-IsSound b grows arrays (slice b.seconds (i, j)) a.grant a.snapshot
                            made,
                      ),
                      all,
                    ),
                  )
            ]
      ]

  length-cuts :
      (share : ℕ → ℕ → ℕ) (seconds : List ℕ) (total acc start w : ℕ) (weights : List ℕ)
      → length (cuts share seconds total acc start (w ∷ weights)) ≡ length (w ∷ weights)
  unfolding cuts
  length-cuts share seconds total acc start w [] = refl
  length-cuts share seconds total acc start w (v ∷ weights) =
      ap suc (length-cuts share seconds total (acc + w) _ v weights)

  length-rates : (able : List Able) → length (map (λ (a : Able). a.rate) able) ≡ length able
  length-rates [] = refl
  length-rates (a ∷ able) = ap suc (length-rates able)

  length-split :
      (able : List Able)
      → leb (length able) 1 ≡ false
      → length able ≡ length (split b.policy.share b.seconds (map (λ (a : Able). a.rate) able))
  unfolding split
  length-split [] h = cc
  length-split (a ∷ able) h = sym (
      length-cuts b.policy.share b.seconds _ 0 0 a.rate (map (λ (a : Able). a.rate) able)
      ∙ ap suc (length-rates able))

  -- The placements cover all items, in order; each may be relied on; together they are held to the cap.
  abbrev pub IsSpan : Option ℕ → List Placement → Type 0
  IsSpan cap placements =
      Chains 0 (length b.seconds) (items_of placements)
      × All IsPlaced placements
      × IsHeld cap (throttles placements)

  within_cap : (cap : Option ℕ) (n : ℕ) → is_over_cap cap n ≡ false → IsHeld cap n
  within_cap none n h = tt
  within_cap (some c) n h = ground (arith, h)

  spread_or-IsSpan :
      (cap : Option ℕ) (plan : Plan) (alone : List Placement) (spread : Option (List Placement))
      → IsSpan cap alone
      → ((placements : List Placement)
          → spread ≡ some placements
          → Spreads 0 (length b.seconds) placements)
      → IsSpan cap (spread_or cap plan alone spread)
  unfolding spread_or
  spread_or-IsSpan cap plan alone none h spreads = h
  spread_or-IsSpan cap plan alone (some placements) h spreads =
      let (chain, all) = spreads placements refl in
      elim (Bool-cases (is_over_cap cap (throttles placements))) [
        | inl over ↦ rw over h
        | inr fits ↦ rw fits (elim (Bool-cases (ltb (slowest_of placements) plan.makespan)) [
          | inl faster ↦ rw faster (chain, all, within_cap cap (throttles placements) fits)
          | inr slower ↦ rw slower h
        ])
      ]

  whole_slice : length (slice b.seconds (0, length b.seconds)) ≡ length b.seconds
  whole_slice =
      let same : length b.seconds - 0 ≡ length b.seconds = omega arith in
      ap (λ n. length (take n b.seconds)) same ∙ ap length (take-length b.seconds)

  alone-IsSpan :
      (cap : Option ℕ) (grant : Grant) (plan : Plan)
      → Placed b candidates (length b.seconds) grant plan
      → IsHeld cap plan.throttle
      → IsSpan cap (record { grant = grant; plan = plan; items = (0, length b.seconds) } ∷ [])
  alone-IsSpan cap grant plan placed held = (
    (refl, omega arith, refl),
    (subst (λ n. Placed b candidates n grant plan) (sym whole_slice) placed, tt),
    held_sum cap held,
  )
    where
      held_sum : (c : Option ℕ) → IsHeld c plan.throttle → IsHeld c (plan.throttle + 0)
      held_sum none h = tt
      held_sum (some n) h = omega (arith, h)

  few_or-IsSpan :
      (cap : Option ℕ) (plan : Plan) (alone : List Placement) (able : List Able)
      → IsSpan cap alone
      → Ables able
      → IsSpan cap (
          if leb (length able) 1
          then alone
          else spread_or cap plan alone
              (slices_of b able (split b.policy.share b.seconds (map (λ (a : Able). a.rate) able))))
  few_or-IsSpan cap plan alone able h ables =
      let rates = map (λ (a : Able). a.rate) able in
      let ranges = split b.policy.share b.seconds rates in
      elim (Bool-cases (leb (length able) 1)) [
        | inl few ↦ rw few h
        | inr many ↦ rw many (
            spread_or-IsSpan cap plan alone (slices_of b able ranges) h (λ ps spread.
              slices_of-Spreads able ranges 0 (length b.seconds) ables (length-split able many)
                (split-Chains b.policy.share b.seconds rates) spread))
      ]

  -- When the bounds of a shard are not zero and grow, and an array takes a task, the placements of a span
  -- cover all items, one after another, none twice; the grant of each stands among the candidates with a
  -- snapshot on which its plan is sound for its slice; and where the session has a cap, all placements
  -- together start no more tasks at once than its room, or one.
  pub span-IsSpan :
      {placements : List Placement}
      → span b candidates ≡ ok placements
      → (cap : Option ℕ) × (session_room b.session (snapshots_of candidates) b.cost ≡ ok cap)
        × IsSpan cap placements
  unfolding span
  span-IsSpan h =
      let (best, e, rest) = >>=-eq-ok (allocate b candidates) _ h in
      let (cap', f, end) =
        >>=-eq-ok (session_room b.session (snapshots_of candidates) b.cost) _ rest in
      let (cap, g, option) = allocate-IsOption b grows arrays candidates e in
      let able = able_of b (snapshots_of candidates) 0 candidates in
      let alone =
        record { grant = best.grant; plan = best.plan; items = (0, length b.seconds) } ∷ [] in
      let same : cap ≡ cap' = ok_inj (sym g ∙ f) in
      let held =
        subst (λ c. IsSpan c alone) same
          (alone-IsSpan cap best.grant best.plan option.0 option.1) in
      (
        cap',
        f,
        subst (IsSpan cap') (ok_inj end) (
            few_or-IsSpan cap' best.plan alone able held
              (able_of-Ables (snapshots_of candidates) 0 candidates (AllAmong-self candidates))),
      )
