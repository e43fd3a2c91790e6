-- ===== src/Box/QueueLaws.antt =====
-- The looks of src/lab_commons/box/ledger.py's waiters: keys, the order of the tickets, and the ticket of
-- a wait that is over.
use lab_commons.Commons.{
  ℕ, ◌≤◌, ◌<◌, ◌==◌, String, ◌≡◌, refl, sym, ap, ◌∙◌, subst, true, false, not, Option, none, some,
  List, [], ◌∷◌, ◌++◌, arith, any, all, ltb→ge, lt→ltb, ok, err, Error, Bool-cases, inl, inr, ◌↔◌,
  ◌⊎◌,
}
use lab_commons.Commons.Dict.{Dict}
use lab_commons.Box.Demand.{Holding}
use lab_commons.Box.Order.{Asked, vector, contends, earliest, later, blocks}
use lab_commons.Box.Ledger.{TicketRow, Ledger}
use lab_commons.Box.Queue.{
  Claim, Ask, Sight, admitted, read_rows, asked_of, jumper_of, is_key_held, is_blocking, is_behind,
  drop_ticket, try_ticket,
}
use lab_commons.Box.Wait.{Look, wait}
use lab_commons.Box.Hold.{enter, queue_ticket}
use lab_commons.Box.HoldLaws.{has_ticket, any-keep-not}
use lab_commons.Box.PoolSteps.{Tried, looked, try_ticket_lem}

-- A look is refused with the duplicate key error exactly when an external claim of its key stands after
-- reaping.
pub try_ticket-duplicate :
    (os : String) (ask : Ask) (sight : Sight) (ticket : ℕ) (before : Ledger)
    → (try_ticket os ask sight ticket before ≡ err Error.duplicate_key)
      ↔ (any (is_key_held ask.key) (looked sight before).claims ≡ true)
unfolding try_ticket
try_ticket-duplicate os ask sight ticket before =
    elim (Bool-cases (any (is_key_held ask.key) (looked sight before).claims)) [
      | inl h ↦ rw h ((λ e. refl), (λ e. refl))
      | inr h ↦ rw h ((λ e. cc), (λ e. cc))
    ]

-- Among the rows.
abbrev pub Among : TicketRow → List TicketRow → Type 0
Among t [] = ⊥
Among t (u ∷ rows) = (t ≡ u) ⊎ Among t rows

module _ (os : String) (ask : Ask) (sight : Sight) (ticket : ℕ) where
  none_blocks :
      (held : List Holding) (rows : List TicketRow) (t : TicketRow)
      → any (is_blocking os ask sight held ticket) rows ≡ false
      → Among t rows
      → is_blocking os ask sight held ticket t ≡ false
  none_blocks held [] t h m = elim m [ ]
  none_blocks held (u ∷ rows) t h (inl e) =
      subst (λ v. is_blocking os ask sight held ticket v ≡ false) (sym e) (ground (arith, h))
  none_blocks held (u ∷ rows) t h (inr m) = none_blocks held rows t (ground (arith, h)) m

  blocks-known :
      (asked : Asked) (jumper : Holding) (held : List Holding) (cpu memory : ℕ) (wanted : Dict ℕ)
      → asked ≡ record { cpu = some cpu; memory = some memory; seats = some wanted }
      → contends jumper asked ≡ true
      → blocks os asked jumper ask.capacity held sight.reading sight.now
        ≡ later os
            (earliest os ask.capacity
              (held ++ jumper ∷ [])
              sight.reading
              (vector cpu memory wanted)
              sight.now)
            (earliest os ask.capacity held sight.reading (vector cpu memory wanted) sight.now)
  unfolding blocks
  blocks-known asked jumper held cpu memory wanted e c = rw c (
      rw (ap (λ (a : Asked). a.cpu) e)
        (rw (ap (λ (a : Asked). a.memory) e) (rw (ap (λ (a : Asked). a.seats) e) refl)))

  not_behind :
      (ledger l : Ledger) (claim : Claim)
      → Tried os ask sight ticket ledger (admitted claim) l
      → all (λ (h : Holding). not (h.pid == ask.pid)) (read_rows ledger) ≡ true
      → any (is_blocking os ask sight (read_rows ledger) ticket) ledger.tickets ≡ false
  unfolding is_behind
  not_behind ledger l claim (Tried.enters r b) a = ground (arith, b, a)

  not_later :
      (a : Option ℕ) (start : ℕ)
      → later os a (some start) ≡ false
      → (beside : ℕ) × (a ≡ some beside) × (beside ≤ start)
  not_later none start h = cc
  not_later (some beside) start h = (beside, refl, ltb→ge start beside h)

  -- A look that admits a process without a claim delays no ticket before its own: such a ticket that
  -- names its demand and contends with the claim starts no later beside the claim than without it.
  pub admits-delays_none :
      (before after : Ledger) (claim : Claim) (t : TicketRow) (cpu memory : ℕ) (wanted : Dict ℕ)
      (start : ℕ)
      → try_ticket os ask sight ticket before ≡ ok (admitted claim, after)
      → all (λ (h : Holding). not (h.pid == ask.pid)) (read_rows (looked sight before)) ≡ true
      → Among t (looked sight before).tickets
      → t.id < ticket
      → asked_of t ≡ record { cpu = some cpu; memory = some memory; seats = some wanted }
      → contends (jumper_of ask sight.now) (asked_of t) ≡ true
      → earliest os ask.capacity
          (read_rows (looked sight before))
          sight.reading
          (vector cpu memory wanted)
          sight.now
        ≡ some start
      → (beside : ℕ) × (earliest os ask.capacity
            (read_rows (looked sight before) ++ jumper_of ask sight.now ∷ [])
            sight.reading
            (vector cpu memory wanted)
            sight.now
          ≡ some beside)
        × (beside ≤ start)
  admits-delays_none before after claim t cpu memory wanted start h alone m lt known c e =
      let held = read_rows (looked sight before) in
      let b =
        not_behind (looked sight before) after claim
          (try_ticket_lem os ask sight ticket before after (admitted claim) h).1 alone in
      let f = none_blocks held (looked sight before).tickets t b m in
      let g : blocks os (asked_of t) (jumper_of ask sight.now) ask.capacity held sight.reading
            sight.now
          ≡ false =
        ground (arith, f, lt→ltb t.id ticket lt) in
      let beside : Option ℕ =
        earliest os ask.capacity (held ++ jumper_of ask sight.now ∷ []) sight.reading
          (vector cpu memory wanted) sight.now in
      not_later beside start (
        ap (λ s. later os beside s) (sym e)
        ∙ sym (blocks-known (asked_of t) (jumper_of ask sight.now) held cpu memory wanted known c)
        ∙ g)

-- Once the wait of a `hold` is over, however it ended, the ticket that it queued with is gone.
pub enter-no_ticket :
    (os : String) (ask : Ask) (gives_up : ℕ) (stamp : Option ℕ) (looks : List Look)
    (before : Ledger)
    → has_ticket
        (queue_ticket ask gives_up stamp before).0
        (enter os ask gives_up stamp looks before).1
      ≡ false
unfolding enter drop_ticket
enter-no_ticket os ask gives_up stamp looks before =
    let q = queue_ticket ask gives_up stamp before in
    any-keep-not (λ (t : TicketRow). t.id == q.0) (wait os ask q.0 gives_up looks q.1).1.tickets
