-- ===== src/Box/Reap.antt =====
-- The claims after `reap` of src/lab_commons/box/ledger.py.
use lab_commons.Commons.{
  ℕ, ◌+◌, ◌≤◌, String, ◌≡◌, refl, Bool, true, false, ◌&&◌, Option, List, [], ◌∷◌, map, keep, leb,
  leb→le, arith, All, ◌⊎◌, inl, inr, Bool-cases, if◌then◌else◌, ==_refl, all,
}
use lab_commons.Box.Demand.{wall_ceiling_s}
use lab_commons.Box.Ledger.{
  ClaimRow, Ledger, grace_s, among_ids, is_external, is_possible, probe_fails, is_dead,
  dead_externals, keeps_claim, reap,
}

module _ (same_process : ℕ → Option ℕ → Bool) (answers : List String → Bool) (now : ℕ) where
  -- A claim that started by now and the grace, ends within the ceiling and the grace and not before now
  -- less the grace, and whose process runs or whose probe does not say that its job is gone.
  pub record IsCurrent (row : ClaimRow) : Type 0 where
    pub begun : row.started ≤ now + grace_s
    pub bounded : row.deadline ≤ now + wall_ceiling_s + grace_s
    pub lasting : now ≤ row.deadline + grace_s
    pub held :
        (same_process row.pid row.created ≡ true)
        ⊎ (is_external row.probe ≡ true) × (probe_fails same_process answers row.probe ≡ false)

  abbrev test : ClaimRow → Bool
  test = is_dead same_process answers now

  -- The dead are among the ids of the dead.
  abbrev Names : List ℕ → ClaimRow → Type 0
  Names ids row = test row ≡ true → among_ids row.id ids ≡ true

  Names-more :
      (n : ℕ) (ids : List ℕ) (rows : List ClaimRow)
      → All (Names ids) rows
      → All (Names (n ∷ ids)) rows
  Names-more n ids [] h = tt
  Names-more n ids (row ∷ rows) h = (λ d. ground (arith, h.0 d), Names-more n ids rows h.1)

  ids_of : List ClaimRow → List ℕ
  ids_of rows = map (λ (r : ClaimRow). r.id) rows

  dead_named : (rows : List ClaimRow) → All (Names (ids_of (keep test rows))) rows
  unfolding ids_of
  dead_named [] = tt
  dead_named (row ∷ rows) = step (test row) refl (dead_named rows)
    where
      step :
          (b : Bool)
          → test row ≡ b
          → All (Names (ids_of (keep test rows))) rows
          → All (Names (ids_of (if b then row ∷ keep test rows else keep test rows))) (row ∷ rows)
      step true e h =
          (λ d. ground (arith, ==_refl row.id), Names-more row.id (ids_of (keep test rows)) rows h)
      step false e h = (λ d. cc, h)

  current :
      (dead : List ℕ) (row : ClaimRow)
      → Names dead row
      → is_possible now row ≡ true
      → keeps_claim same_process answers now dead row ≡ true
      → IsCurrent row
  current dead row named p k = record {
    begun = leb→le row.started (now + grace_s) (ground arith);
    bounded = leb→le row.deadline (now + wall_ceiling_s + grace_s) (ground arith);
    lasting = leb→le now (row.deadline + grace_s) (ground arith);
    held = elim (Bool-cases (same_process row.pid row.created)) [
      | inl same ↦ inl same
      | inr gone ↦ inr (ground (arith, gone, k), ground (arith, gone, k, named))
    ];
  }

  kept-IsCurrent :
      (dead : List ℕ) (rows : List ClaimRow)
      → All (Names dead) rows
      → All IsCurrent
          (keep (keeps_claim same_process answers now dead) (keep (is_possible now) rows))
  kept-IsCurrent dead [] h = tt
  kept-IsCurrent dead (row ∷ rows) h =
      step (is_possible now row) (keeps_claim same_process answers now dead row) refl refl
        (kept-IsCurrent dead rows h.1)
    where
      possible : List ClaimRow
      possible = keep (is_possible now) rows

      kept : List ClaimRow → List ClaimRow
      kept l = keep (keeps_claim same_process answers now dead) l

      step :
          (b c : Bool)
          → is_possible now row ≡ b
          → keeps_claim same_process answers now dead row ≡ c
          → All IsCurrent (kept possible)
          → All IsCurrent (kept (if b then row ∷ possible else possible))
      step false c p k a = a
      step true false p k a = rw k a
      step true true p k a = rw k (current dead row h.0 p k, a)

  -- Every claim that reaping leaves is current: it started by now and the grace, ends within the wall
  -- ceiling and the grace and has not been over for longer than the grace, and either its process runs or
  -- it has a probe that does not say that its job is gone.
  pub reap-IsCurrent :
      (ledger : Ledger) → All IsCurrent (reap same_process answers now ledger).claims
  unfolding reap
  reap-IsCurrent ledger =
      kept-IsCurrent (dead_externals same_process answers now ledger) ledger.claims
        (unfold ids_of in dead_named ledger.claims)

  -- Possible, not past the grace, and its process runs.
  abbrev pub is_healthy : ClaimRow → Bool
  is_healthy row =
      is_possible now row && leb now (row.deadline + grace_s) && same_process row.pid row.created

  keep_healthy :
      (dead : List ℕ) (rows : List ClaimRow)
      → all is_healthy rows ≡ true
      → keep (keeps_claim same_process answers now dead) (keep (is_possible now) rows) ≡ rows
  keep_healthy dead [] h = refl
  keep_healthy dead (row ∷ rows) h = ground (arith, keep_healthy dead rows)

  -- Reaping takes no claim away when every claim is possible, not past the grace, and has its process
  -- running, whatever the probes answer.
  pub reap_healthy :
      (ledger : Ledger)
      → all is_healthy ledger.claims ≡ true
      → (reap same_process answers now ledger).claims ≡ ledger.claims
  unfolding reap
  reap_healthy ledger h =
      keep_healthy (dead_externals same_process answers now ledger) ledger.claims h
