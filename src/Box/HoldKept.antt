-- ===== src/Box/HoldKept.antt =====
-- `hold`, `take` and `external` of src/lab_commons/box/ledger.py: the rows that they leave.
use lab_commons.Commons.{
  ℕ, ◌+◌, ◌==◌, String, ◌≡◌, refl, sym, ap, subst, Bool, true, false, not, ◌&&◌, Option, none, some,
  List, [], ◌∷◌, arith, keep, any, ok, err, Error, >>=-eq-ok, guard-eq-ok, ok_inj, Bool-cases, inl,
  inr,
}
use lab_commons.Commons.Int.{ℤ, pos}
use lab_commons.Commons.Dict.{Dict}
use lab_commons.Box.Ledger.{ClaimRow, Ledger, is_external, update, persist}
use lab_commons.Box.Queue.{Claim, Ask, drop_ticket}
use lab_commons.Box.Wait.{Look, Waited, wait}
use lab_commons.Box.Hold.{
  Request, Asker, Held, enter, leave, run_body, attend, hold, prepare, seconds, queue_ticket,
  keep_claim, take,
}
use lab_commons.Box.External.{external, has_args, lent_onto}
use lab_commons.Box.HoldLaws.{has_row, any-keep-not, wait-row}

-- Of the row's id, and kept past its client; the same, not kept; the same, with a probe.
abbrev pub is_kept_row : ℕ → ClaimRow → Bool
is_kept_row n r = r.id == n && r.kept

abbrev pub is_bound_row : ℕ → ClaimRow → Bool
is_bound_row n r = r.id == n && not r.kept

abbrev pub is_external_row : ℕ → ClaimRow → Bool
is_external_row n r = r.id == n && (r.kept && is_external r.probe)

module _ (n : ℕ) (q : ClaimRow → Bool) where
  any-update :
      (change : ClaimRow → ClaimRow) (rows : List ClaimRow)
      → ((r : ClaimRow) → (r.id == n) ≡ true → q (change r) ≡ true)
      → any (λ (r : ClaimRow). r.id == n) rows ≡ true
      → any q (update n change rows) ≡ true
  any-update change [] h a = cc
  any-update change (r ∷ rows) h a = elim (Bool-cases (r.id == n)) [
    | inl e ↦ rw e (rw (h r e) refl)
    | inr e ↦ rw e (ground (arith, e, a, any-update change rows h))
  ]

  any-keep :
      (p : ClaimRow → Bool) (rows : List ClaimRow)
      → ((r : ClaimRow) → q r ≡ true → p r ≡ true)
      → any q rows ≡ true
      → any q (keep p rows) ≡ true
  any-keep p [] h a = cc
  any-keep p (r ∷ rows) h a = elim (Bool-cases (q r)) [
    | inl e ↦ rw (h r e) (rw e refl)
    | inr e ↦ elim (Bool-cases (p r)) [
      | inl f ↦ rw f (rw e (any-keep p rows h (ground (arith, e, a))))
      | inr f ↦ rw f (any-keep p rows h (ground (arith, e, a)))
    ]
  ]

run_body-inv :
    (body : ℕ → Ledger → Ledger) (w : Waited × Ledger) (after : Ledger) (claim : Claim)
    → run_body body w ≡ (Waited.ended (ok claim), after)
    → (m : Ledger) × (w ≡ (Waited.ended (ok claim), m)) × (after ≡ leave claim.id (body claim.id m))
unfolding run_body
run_body-inv body (Waited.ended (ok c), m) after claim h =
    let e : c ≡ claim = cc in
    (
      m,
      ap (λ d. (Waited.ended (ok d), m)) e,
      subst (λ (d : Claim). after ≡ leave d.id (body d.id m)) e (cc),
    )
run_body-inv body (Waited.ended (err raised), m) after claim h = cc
run_body-inv body (Waited.waiting, m) after claim h = cc

enter-row :
    (os : String) (ask : Ask) (gives_up : ℕ) (stamp : Option ℕ) (looks : List Look)
    (before after : Ledger) (claim : Claim)
    → enter os ask gives_up stamp looks before ≡ (Waited.ended (ok claim), after)
    → has_row claim.id after ≡ true
unfolding enter drop_ticket
enter-row os ask gives_up stamp looks before after claim h =
    let q = queue_ticket ask gives_up stamp before in
    let w = wait os ask q.0 gives_up looks q.1 in
    let e : w.0 ≡ Waited.ended (ok claim) = ap (λ (p : Waited × Ledger). p.0) h in
    subst (λ (l : Ledger). has_row claim.id l ≡ true) (ap (λ (p : Waited × Ledger). p.1) h)
      (wait-row os ask q.0 gives_up looks q.1 w.1 claim (ap (λ o. (o, w.1)) e))

module _ (os : String) (request : Request) (asker : Asker) (looks : List Look)
    (body : ℕ → Ledger → Ledger) (before after : Ledger) (claim : Claim) where
  attend-inv :
      (o : Option Ask)
      → attend os request asker looks body before o
        ≡ (Held.finished (Waited.ended (ok claim)), after)
      → (m : Ledger) × (has_row claim.id m ≡ true) × (after ≡ leave claim.id (body claim.id m))
  unfolding attend
  attend-inv none h = cc
  attend-inv (some ask) h =
      let gives_up = asker.now + seconds request.queue_s in
      let entered = enter os ask gives_up asker.stamp looks before in
      let ran = run_body body entered in
      let e : ran ≡ (Waited.ended (ok claim), after) = cc in
      let (m, f, g) = run_body-inv body entered after claim e in
      (m, enter-row os ask gives_up asker.stamp looks before m claim f, g)

  -- A hold that its ask entered.
  hold-inv :
      hold os request asker looks body before ≡ ok (Held.finished (Waited.ended (ok claim)), after)
      → (m : Ledger) × (has_row claim.id m ≡ true) × (after ≡ leave claim.id (body claim.id m))
  unfolding hold
  hold-inv h = let (o, _, f) = >>=-eq-ok (prepare request asker) _ h in attend-inv o (ok_inj f)

  -- After a `hold` under a claim of its own, whatever its body does, no row of that claim is left that is not
  -- kept.
  pub hold-leaves_none :
      hold os request asker looks body before ≡ ok (Held.finished (Waited.ended (ok claim)), after)
      → any (is_bound_row claim.id) after.claims ≡ false
  unfolding leave
  hold-leaves_none h =
      let (m, _, g) = hold-inv h in
      subst (λ (l : Ledger). any (is_bound_row claim.id) l.claims ≡ false) (sym g)
        (any-keep-not (is_bound_row claim.id) (body claim.id m).claims)

module _ (os : String) (request : Request) (asker : Asker) (looks : List Look)
    (before after : Ledger) (claim : Claim) where
  -- A `take` that returns a claim of its own leaves a row of that claim that is kept.
  pub take-keeps :
      take os request asker looks before ≡ ok (Held.finished (Waited.ended (ok claim)), after)
      → any (is_kept_row claim.id) after.claims ≡ true
  unfolding take keep_claim leave
  take-keeps h =
      let (m, a, g) =
        hold-inv os (record request { queue_s = pos 0; fingerprint = none; outside = false }) asker
          looks keep_claim before after claim h in
      subst (λ (l : Ledger). any (is_kept_row claim.id) l.claims ≡ true) (sym g)
        (any-keep claim.id (is_kept_row claim.id) _ (keep_claim claim.id m).claims
          (λ r e. ground (arith, e))
          (any-update claim.id (is_kept_row claim.id) _ m.claims (λ r e. ground (arith, e)) a))

  -- An `external` that returns a claim leaves a row of that claim that is kept and has a probe.
  pub external-persists :
      (probe : List String) (counts : Dict ℤ)
      → external os request probe counts asker looks before
        ≡ ok (Held.finished (Waited.ended (ok claim)), after)
      → any (is_external_row claim.id) after.claims ≡ true
  unfolding external persist leave
  external-persists probe counts h =
      let g1 = guard-eq-ok (has_args probe) Error.value_error _ h in
      let (c, _, f) = >>=-eq-ok (lent_onto request.capacity counts) _ g1.1 in
      let (m, a, g) =
        hold-inv os (record request { capacity = c; fingerprint = none; outside = true }) asker
          looks (λ n ledger. persist n probe ledger) before after claim f in
      subst (λ (l : Ledger). any (is_external_row claim.id) l.claims ≡ true) (sym g)
        (any-keep claim.id (is_external_row claim.id) _ (persist claim.id probe m).claims
          (λ r e. ground (arith, e))
          (any-update claim.id (is_external_row claim.id) _ m.claims (λ r e. ground (arith, e)) a))
