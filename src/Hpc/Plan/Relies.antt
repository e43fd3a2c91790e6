-- ===== src/Hpc/Plan/Relies.antt =====
-- What a plan of `make_plan` (src/lab_commons/hpc/plan.py) may be relied on for, from its candidates on.
use lab_commons.Commons.{
  ℕ, zero, suc, ◌≤◌, ◌<◌, String, ◌≡◌, refl, ap, subst, sym, true, false, not, Option, none, some,
  List, [], ◌∷◌, map, min, max, eq_iff, eq_refl, ltb, ltb→lt, length, All, ok, >>=-eq-ok,
  guard-eq-ok, ok_inj, arith, ◌⊎◌, inl, inr, Bool-cases, Option-cases,
}
use lab_commons.Commons.Dict.{lookup}
use lab_commons.Hpc.Shards.{Range}
use lab_commons.Hpc.Pack.{Chains}
use lab_commons.Hpc.Plan.Quota.{
  Snapshot, Cost, Limits, known, submit_room, quota_slots, slots_left, free_slots,
}
use lab_commons.Hpc.Plan.Cut.{Grows, Policy, capped}
use lab_commons.Hpc.Plan.Make.{
  Cluster, Open, Choice, Plan, open_one, open_in, is_empty, top_of, held_to_top, padded_for,
  is_over, or_allowed, cut_for, choices, first_free, holds, merged_names, plan_of, chosen_plan,
  make_plan,
}
use lab_commons.Hpc.Plan.Sound.{IsOpen, Fits, one_wave_lem, open_in-IsOpen}

module _ (snapshot : Snapshot) (cluster : Cluster) (policy : Policy) where
  record IsChoice (items : ℕ) (c : Choice) : Type 0 where
    opened : IsOpen snapshot cluster c.at
    fits : Fits policy c.at.room items c.shards
    within : is_over policy c.at.ceiling c.minutes ≡ false

  -- The name is a candidate of this QOS whose wall holds these minutes.
  abbrev pub Serves : String → ℕ → String → Type 0
  Serves qos minutes name =
      (o : Open) × (open_one snapshot cluster name ≡ some o)
      × (o.qos ≡ qos)
      × (is_over policy o.ceiling minutes ≡ false)

  -- All items are in the shards, in order; there are no more tasks than the array and the QOS take; some
  -- but no more than the tasks and the QOS's jobs run at once; and each partition serves.
  pub record IsSound (items : ℕ) (plan : Plan) : Type 0 where
    pub covers : Chains 0 items plan.shards
    pub submits : length plan.shards ≤ capped policy.max_array (submit_room snapshot.quota plan.qos)
    pub throttled : (0 < plan.throttle) × (plan.throttle ≤ length plan.shards)
    pub jobs :
        plan.throttle
        ≤ or_allowed (known (lookup plan.qos snapshot.quota.max_jobs)) (length plan.shards)
    pub somewhere : 0 < length plan.partitions
    pub serves : All (Serves plan.qos plan.minutes) plan.partitions

  abbrev Among : Choice → List Choice → Type 0
  Among c [] = ⊥
  Among c (d ∷ ds) = (c ≡ d) ⊎ Among c ds

  choice_of :
      (P : Choice → Type 0) (c : Choice) (options : List Choice)
      → All P options
      → Among c options
      → P c
  choice_of P c [] all h = elim h [ ]
  choice_of P c (d ∷ ds) (p, all) (inl e) = subst P (sym e) p
  choice_of P c (d ∷ ds) (p, all) (inr h) = choice_of P c ds all h

  at_once_pos :
      (allowed : ℕ) (jobs : Option ℕ) → 0 < allowed → 0 < min allowed (or_allowed jobs allowed)
  at_once_pos allowed none h = omega arith
  at_once_pos allowed (some zero) h = omega arith
  at_once_pos allowed (some (suc n)) h = omega arith

  choices-IsChoice :
      (padded : List ℕ) (allowed : ℕ) (opens : List Open)
      → Grows policy
      → 0 < policy.max_array
      → 0 < allowed
      → All (IsOpen snapshot cluster) opens
      → All (IsChoice (length padded)) (choices snapshot.quota policy padded allowed opens)
  unfolding choices cut_for
  choices-IsChoice padded allowed [] grows arrays some_allowed h = tt
  choices-IsChoice padded allowed (o ∷ opens) grows arrays some_allowed (h, all) =
      let rest = choices-IsChoice padded allowed opens grows arrays some_allowed all in
      let at_once =
        min allowed (or_allowed (known (lookup o.qos snapshot.quota.max_jobs)) allowed) in
      let cut =
        one_wave_lem padded policy o.room at_once o.ceiling grows arrays
          (at_once_pos allowed (known (lookup o.qos snapshot.quota.max_jobs)) some_allowed)
          h.has_room in
      elim (Bool-cases
        (is_over policy o.ceiling (cut_for snapshot.quota policy padded allowed o).minutes)) [
          | inl e ↦ rw (e, All) rest
          | inr e ↦ rw (e, All) (record { opened = h; fits = cut; within = e }, rest)
        ]

  first_free-Among :
      (cost : Cost) (first : Choice) (options : List Choice) {c : Choice}
      → first_free snapshot cost first options ≡ ok c
      → (c ≡ first) ⊎ Among c options
  unfolding first_free
  first_free-Among cost first [] h = inl (sym (ok_inj h))
  first_free-Among cost first (d ∷ options) h =
      let (free, e, rest) = >>=-eq-ok (free_slots snapshot (d.at.name ∷ []) cost) _ h in
      elim (Bool-cases (ltb 0 free)) [
        | inl yes' ↦ inr (inl (sym (ok_inj (rw yes' at rest))))
        | inr no' ↦ elim (first_free-Among cost first options (rw no' at rest)) [
          | inl same ↦ inl same
          | inr there ↦ inr (inr there)
        ]
      ]

  served :
      (items : ℕ) (chosen : Choice) (options : List Choice)
      → All (IsChoice items) options
      → All (Serves chosen.at.qos chosen.minutes) (merged_names policy chosen options)
  unfolding merged_names
  served items chosen [] h = tt
  served items chosen (c ∷ options) (h, all) = elim (Bool-cases (holds policy chosen c)) [
    | inl e ↦
        rw (e, All)
          (
            (
              c.at,
              h.opened.is_candidate,
              (eq_iff c.at.qos chosen.at.qos).0 (ground (arith, e)),
              ground (arith, e),
            ),
            served items chosen options all,
          )
    | inr e ↦ rw (e, All) (served items chosen options all)
  ]

  serves_some :
      (chosen : Choice) (options : List Choice)
      → holds policy chosen chosen ≡ true
      → Among chosen options
      → 0 < length (merged_names policy chosen options)
  unfolding merged_names
  serves_some chosen [] h there = elim there [ ]
  serves_some chosen (c ∷ options) h (inl same) =
      subst (λ d. 0 < length (merged_names policy chosen (d ∷ options))) same
        (rw (h, length) (omega arith))
  serves_some chosen (c ∷ options) h (inr there) =
      let more = serves_some chosen options h there in
      elim (Bool-cases (holds policy chosen c)) [
        | inl e ↦ rw (e, length) (omega arith)
        | inr e ↦ rw (e, length) more
      ]

  Chains-some :
      (items : ℕ) (shards : List Range) → 0 < items → Chains 0 items shards → 0 < length shards
  Chains-some items [] h c = omega (arith, h, c)
  Chains-some items (r ∷ shards) h c = omega arith

  throttle_bounds :
      (tasks now : ℕ) (jobs : Option ℕ)
      → 0 < tasks
      → (0 < min tasks (min (max 1 now) (or_allowed jobs tasks)))
        × (min tasks (min (max 1 now) (or_allowed jobs tasks)) ≤ tasks)
        × (min tasks (min (max 1 now) (or_allowed jobs tasks)) ≤ or_allowed jobs tasks)
  throttle_bounds tasks now none h = omega arith
  throttle_bounds tasks now (some zero) h = omega arith
  throttle_bounds tasks now (some (suc n)) h = omega arith

  plan_of-IsSound :
      (items : ℕ) (cost : Cost) (limits : Limits) (opens : List Open) (options : List Choice)
      (chosen : Choice) {plan : Plan}
      → 0 < items
      → All (IsChoice items) options
      → Among chosen options
      → plan_of snapshot cost limits policy opens options chosen ≡ ok plan
      → IsSound items plan
  unfolding plan_of
  plan_of-IsSound items cost limits opens options chosen some_items all there h =
      let (now, e, rest) = >>=-eq-ok (slots_left snapshot cost limits) _ h in
      let (free, f, end) =
        >>=-eq-ok (free_slots snapshot (merged_names policy chosen options) cost) _ rest in
      let is_choice = choice_of (IsChoice items) chosen options all there in
      let jobs = known (lookup chosen.at.qos snapshot.quota.max_jobs) in
      let bounds =
        throttle_bounds (length chosen.shards) now jobs
          (Chains-some items chosen.shards some_items is_choice.fits.1) in
      subst (IsSound items) (ok_inj end) (record {
        covers = is_choice.fits.1;
        submits =
            subst (λ r. length chosen.shards ≤ capped policy.max_array r) is_choice.opened.takes
              is_choice.fits.0;
        throttled = (bounds.0, bounds.1);
        jobs = bounds.2;
        somewhere =
            serves_some chosen options (rw (eq_refl chosen.at.qos, is_choice.within) refl) there;
        serves = served items chosen options all;
      })

  length-map : (f : ℕ → ℕ) (xs : List ℕ) → length (map f xs) ≡ length xs
  length-map f [] = refl
  length-map f (x ∷ xs) = ap suc (length-map f xs)

  length-held :
      (seconds : List ℕ) (tops : List (Option ℕ))
      → length (held_to_top seconds policy tops) ≡ length seconds
  unfolding held_to_top
  length-held seconds tops = elim (Option-cases (top_of tops)) [
    | inl e ↦ rw (e, length) (length-map policy.pad seconds)
    | inr (top, e) ↦ rw (e, length) (length-map (λ s. min (policy.pad s) top) seconds)
  ]

  chosen_plan-IsSound :
      (items : ℕ) (cost : Cost) (limits : Limits) (opens : List Open) (options : List Choice)
      {plan : Plan}
      → 0 < items
      → All (IsChoice items) options
      → chosen_plan snapshot cost limits policy opens options ≡ ok plan
      → IsSound items plan
  chosen_plan-IsSound items cost limits opens [] some_items all h = absurd (ground (arith, h))
  chosen_plan-IsSound items cost limits opens (first ∷ options) some_items all h =
      let (chosen, e, rest) = >>=-eq-ok (first_free snapshot cost first (first ∷ options)) _ h in
      plan_of-IsSound items cost limits opens (first ∷ options) chosen some_items all
        (elim (first_free-Among cost first (first ∷ options) e) [
          | inl same ↦ inl same
          | inr there ↦ there
        ])
        rest

  not_empty : (seconds : List ℕ) → not (is_empty seconds) ≡ true → 0 < length seconds
  not_empty [] h = cc
  not_empty (s ∷ seconds) h = omega arith

  -- When the bounds of a shard are not zero and grow, and an array takes a task, a plan that is made is sound: its shards are
  -- ranges that follow one another from the first item to the last, no more than an array and its QOS take;
  -- at least one and no more than its tasks and its QOS's jobs run at once; and it names a partition, each
  -- an open candidate of its QOS whose wall holds the plan's minutes.
  pub make_plan-IsSound :
      (seconds : List ℕ) (cost : Cost) (limits : Limits) {plan : Plan}
      → Grows policy
      → 0 < policy.max_array
      → make_plan seconds cost snapshot cluster policy limits ≡ ok plan
      → IsSound (length seconds) plan
  unfolding make_plan
  make_plan-IsSound seconds cost limits {plan} grows arrays h =
      let (some_items, after) = guard-eq-ok (not (is_empty seconds)) _ _ h in
      let (allowed, e, rest) = >>=-eq-ok (quota_slots snapshot cost limits) _ after in
      let (fits, made) = guard-eq-ok (ltb 0 allowed) _ _ rest in
      let opens = open_in snapshot cluster in
      let padded = padded_for policy opens seconds in
      let same : length padded ≡ length seconds =
        length-held seconds (map (λ (o : Open). o.ceiling) opens) in
      subst (λ n. IsSound n plan) same
        (chosen_plan-IsSound (length padded) cost limits opens
          (choices snapshot.quota policy padded allowed opens)
          (subst (λ n. 0 < n) (sym same) (not_empty seconds some_items))
          (choices-IsChoice padded allowed opens grows arrays (ltb→lt 0 allowed fits)
            (open_in-IsOpen snapshot cluster))
          made)
