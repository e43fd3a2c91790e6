-- ===== src/Hpc/Plan/Chosen.antt =====
-- `allocate` (src/lab_commons/hpc/plan.py): what the option that it takes may be relied on for.
use lab_commons.Commons.{
  ◌⊎◌, ℕ, suc, ◌≤◌, ◌<◌, ◌≡◌, refl, subst, sym, Bool, true, false, not, Option, none, some, List,
  [], ◌∷◌, max, ltb, length, All, if◌then◌else◌, Result, ok, err, >>=-eq-ok, guard-eq-ok, ok_inj,
  arith, inl, inr, Bool-cases,
}
use lab_commons.Hpc.Plan.Quota.{Snapshot, no_limits, headroom}
use lab_commons.Hpc.Plan.Cut.{Grows}
use lab_commons.Hpc.Plan.Make.{Plan, make_plan}
use lab_commons.Hpc.Plan.Relies.{IsSound, make_plan-IsSound}
use lab_commons.Hpc.Plan.Session.{session_room}
use lab_commons.Hpc.Plan.Grant.{
  Grant, Batch, Candidates, snapshots_of, cluster_of, plan_for, plan_on, is_placed, Choosable,
  held_plan, option_of, add_option, is_better, best_of, options_of, choose_of, allocate,
}

-- The candidate is one of these.
abbrev pub IsAmong : Grant × Snapshot → Candidates → Type 0
IsAmong c [] = ⊥
IsAmong c (d ∷ pool) = (d ≡ c) ⊎ IsAmong c pool

AllAmong-later :
    (d : Grant × Snapshot) (pool candidates : Candidates)
    → All (λ c. IsAmong c pool) candidates
    → All (λ c. IsAmong c (d ∷ pool)) candidates
AllAmong-later d pool [] h = tt
AllAmong-later d pool (c ∷ candidates) (h, all) = (inr h, AllAmong-later d pool candidates all)

pub AllAmong-self : (pool : Candidates) → All (λ c. IsAmong c pool) pool
AllAmong-self [] = tt
AllAmong-self (c ∷ pool) = (inl refl, AllAmong-later c pool pool (AllAmong-self pool))

-- The grant stands among the candidates with a snapshot on which the plan is sound.
abbrev pub Placed : Batch → Candidates → ℕ → Grant → Plan → Type 0
Placed b pool items grant plan =
    (snapshot : Snapshot) × IsAmong (grant, snapshot) pool
    × IsSound snapshot (cluster_of grant) b.policy items plan

abbrev pub cap_of : Option ℕ → ℕ → ℕ
cap_of none n = n
cap_of (some cap) n = max 1 cap

best_of-All :
    (P : Choosable → Type 0) (best : Choosable) (options : List Choosable)
    → P best
    → All P options
    → P (best_of best options)
unfolding best_of
best_of-All P best [] p all = p
best_of-All P best (o ∷ options) p (q, all) =
    best_of-All P (if is_better o best then o else best) options (either (is_better o best)) all
  where
    either : (t : Bool) → P (if t then o else best)
    either true = q
    either false = p

pub choose_of-All :
    (P : Choosable → Type 0) (placeable : Bool) (options : List Choosable) {o : Choosable}
    → All P options
    → choose_of placeable options ≡ ok o
    → P o
unfolding choose_of
choose_of-All P placeable [] all h = cc
choose_of-All P placeable (o ∷ options) all h =
    subst P (ok_inj h) (best_of-All P o options all.0 all.1)

-- No more tasks at once than the session's room, where it is capped, one aside.
abbrev pub IsHeld : Option ℕ → ℕ → Type 0
IsHeld none n = Unit
IsHeld (some cap) n = n ≤ max 1 cap

module _ (b : Batch) (grows : Grows b.policy) (arrays : 0 < b.policy.max_array) where
  pub plan_for-IsSound :
      (seconds : List ℕ) (grant : Grant) (snapshot : Snapshot) {plan : Plan}
      → plan_for (record b { seconds = seconds }) grant snapshot ≡ ok plan
      → IsSound snapshot (cluster_of grant) b.policy (length seconds) plan
  unfolding plan_on
  plan_for-IsSound seconds grant snapshot h =
      let (fits, made) = guard-eq-ok (not (ltb (headroom snapshot) b.cost.cpus)) _ _ h in
      let (plan, e, rest) =
        >>=-eq-ok
          (make_plan seconds b.cost snapshot (cluster_of grant) b.policy
            (record no_limits { cpus = some (headroom snapshot) }))
          _ made in
      let (files, end) = guard-eq-ok _ _ _ rest in
      let sound =
        make_plan-IsSound snapshot (cluster_of grant) b.policy seconds b.cost _ grows arrays e in
      subst (IsSound snapshot (cluster_of grant) b.policy (length seconds)) (ok_inj end) (record {
        covers = sound.covers;
        submits = sound.submits;
        throttled = sound.throttled;
        jobs = sound.jobs;
        somewhere = sound.somewhere;
        serves = sound.serves;
      })

  held_plan-IsSound :
      (items : ℕ) (grant : Grant) (snapshot : Snapshot) (cap : Option ℕ) (plan : Plan)
      → IsSound snapshot (cluster_of grant) b.policy items plan
      → IsSound snapshot (cluster_of grant) b.policy items (held_plan cap plan)
        × IsHeld cap (held_plan cap plan).throttle
  unfolding held_plan
  held_plan-IsSound items grant snapshot none plan sound = (sound, tt)
  held_plan-IsSound items grant snapshot (some cap) plan sound = (
    record {
      covers = sound.covers;
      submits = sound.submits;
      throttled = omega (arith, sound.throttled);
      jobs = omega (arith, sound.jobs);
      somewhere = sound.somewhere;
      serves = sound.serves;
    },
    omega arith,
  )

  held_plan-minutes : (cap : Option ℕ) (plan : Plan) → (held_plan cap plan).minutes ≡ plan.minutes
  unfolding held_plan
  held_plan-minutes none plan = refl
  held_plan-minutes (some cap) plan = refl

  -- The option's plan is sound on a candidate of its grant, is held to the cap, and may run where it stands in the pool.
  abbrev pub IsOption : Candidates → Option ℕ → List Snapshot → Choosable → Type 0
  IsOption pool cap snapshots o =
      Placed b pool (length b.seconds) o.grant o.plan
      × IsHeld cap o.plan.throttle
      × (is_placed b.paging o.order o.plan.minutes b.cost snapshots b.rerun_safe ≡ true)

  add_option-IsOption :
      (pool : Candidates) (cap : Option ℕ) (snapshots : List Snapshot) (order : ℕ) (grant : Grant)
      (snapshot : Snapshot) (made : Result Plan) (rest : List Choosable × Bool)
      → IsAmong (grant, snapshot) pool
      → plan_for b grant snapshot ≡ made
      → All (IsOption pool cap snapshots) rest.0
      → All
          (IsOption pool cap snapshots)
          (add_option b cap snapshots order grant snapshot made rest).0
  unfolding add_option option_of
  add_option-IsOption pool cap snapshots order grant snapshot (err why) (options, roomless) m e
        rest =
      rest
  add_option-IsOption pool cap snapshots order grant snapshot (ok plan) (options, roomless) m e
        rest =
      let (sound, held) =
        held_plan-IsSound (length b.seconds) grant snapshot cap plan
          (plan_for-IsSound b.seconds grant snapshot e) in
      elim (Bool-cases (is_placed b.paging order plan.minutes b.cost snapshots b.rerun_safe)) [
        | inl there ↦
            rw (there, All)
              (
                (
                  (snapshot, m, sound),
                  held,
                  subst (λ n. is_placed b.paging order n b.cost snapshots b.rerun_safe ≡ true)
                      (sym (held_plan-minutes cap plan)) there,
                ),
                rest,
              )
        | inr gone ↦ rw (gone, All) rest
      ]

  options_of-IsOption :
      (pool : Candidates) (cap : Option ℕ) (snapshots : List Snapshot) (order : ℕ)
      (candidates : Candidates)
      → All (λ c. IsAmong c pool) candidates
      → All (IsOption pool cap snapshots) (options_of b cap snapshots order candidates).0
  unfolding options_of
  options_of-IsOption pool cap snapshots order [] all = tt
  options_of-IsOption pool cap snapshots order ((grant, snapshot) ∷ candidates) (m, all) =
      add_option-IsOption pool cap snapshots order grant snapshot (plan_for b grant snapshot)
        (options_of b cap snapshots (suc order) candidates) m refl
        (options_of-IsOption pool cap snapshots (suc order) candidates all)

  -- The option that is allocated may be relied on.
  pub allocate-IsOption :
      (candidates : Candidates) {o : Choosable}
      → allocate b candidates ≡ ok o
      → (cap : Option ℕ) × (session_room b.session (snapshots_of candidates) b.cost ≡ ok cap)
        × IsOption candidates cap (snapshots_of candidates) o
  unfolding allocate
  allocate-IsOption candidates {o} h =
      let (cap, e, rest) =
        >>=-eq-ok (session_room b.session (snapshots_of candidates) b.cost) _ h in
      (
        cap,
        e,
        choose_of-All (IsOption candidates cap (snapshots_of candidates)) _
            (options_of b cap (snapshots_of candidates) 0 candidates).0
            (options_of-IsOption candidates cap (snapshots_of candidates) 0 candidates
              (AllAmong-self candidates))
            rest,
      )
