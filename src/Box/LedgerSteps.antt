-- ===== src/Box/LedgerSteps.antt =====
-- The transactions of src/lab_commons/box/ledger.py as a relation on ledgers.
use lab_commons.Commons.{
  ℕ, String, ◌≡◌, refl, Bool, true, Option, some, List, [], ◌∷◌, All, All-append, ok,
}
use lab_commons.Box.Demand.{Capacity}
use lab_commons.Box.Amounts.{seats-no_cpu, seats-no_mem}
use lab_commons.Box.Ledger.{Ledger, reap_rows, hand_over, persist, release}
use lab_commons.Box.Queue.{
  read_rows, Ask, Sight, Outcome, claim_row, enter_claim, drop_ticket, try_ticket,
}
use lab_commons.Box.Hold.{queue_ticket, leave, keep_claim}
use lab_commons.Box.Pool.{IsPlain, keep-Sub, All-Sub, reap_rows-Sub, update-IsPlain}
use lab_commons.Box.PoolSteps.{Tried, looked, owns_none, try_ticket_lem}

-- One transaction of any process on the ledger: a look of a process none of whose claims counts as its
-- own, on a box of this capacity; a reap; a change of a claim or its end; a ticket in or out. A claim
-- that is declared is admitted by nobody, so `declare` is no step here.
pub data LedgerStep (os : String) (capacity : Capacity) : Ledger → Ledger → Type 0 where
  looks :
      {before after : Ledger} (ask : Ask) (sight : Sight) (ticket : ℕ) (o : Outcome)
      → ask.capacity ≡ capacity
      → owns_none (some ask.pid) (read_rows (looked sight before)) ≡ true
      → try_ticket os ask sight ticket before ≡ ok (o, after)
      → LedgerStep os capacity before after
  reaps :
      {before : Ledger} (same : ℕ → Option ℕ → Bool) (answers : List String → Bool) (now : ℕ)
      (dead : List ℕ)
      → LedgerStep os capacity before (reap_rows same answers now dead before)
  hands :
      {before : Ledger} (n pid : ℕ) (stamp : Option ℕ)
      → LedgerStep os capacity before (hand_over n pid stamp before)
  persists :
      {before : Ledger} (n : ℕ) (probe : List String)
      → LedgerStep os capacity before (persist n probe before)
  keeps : {before : Ledger} (n : ℕ) → LedgerStep os capacity before (keep_claim n before)
  releases : {before : Ledger} (n : ℕ) → LedgerStep os capacity before (release n before)
  exits : {before : Ledger} (n : ℕ) → LedgerStep os capacity before (leave n before)
  queues :
      {before : Ledger} (ask : Ask) (gives_up : ℕ) (stamp : Option ℕ)
      → LedgerStep os capacity before (queue_ticket ask gives_up stamp before).1
  drops : {before : Ledger} (ticket : ℕ) → LedgerStep os capacity before (drop_ticket ticket before)

module _ (os : String) (capacity : Capacity) where
  row-IsPlain : (ask : Ask) (sight : Sight) (n : ℕ) → IsPlain (claim_row ask sight n)
  row-IsPlain ask sight n = record {
    no_cpu = seats-no_cpu ask.demand;
    no_mem = seats-no_mem ask.demand;
  }

  entered-IsPlain :
      (ask : Ask) (sight : Sight) (ticket : ℕ) (ledger : Ledger)
      → All IsPlain ledger.claims
      → All IsPlain (enter_claim ask sight ticket ledger).claims
  unfolding enter_claim
  entered-IsPlain ask sight ticket ledger h =
      All-append IsPlain ledger.claims (claim_row ask sight ledger.next_id ∷ []) h
        (row-IsPlain ask sight ledger.next_id, tt)

  Tried-IsPlain :
      (ask : Ask) (sight : Sight) (ticket : ℕ) (ledger after : Ledger) (o : Outcome)
      → Tried os ask sight ticket ledger o after
      → All IsPlain ledger.claims
      → All IsPlain after.claims
  Tried-IsPlain ask sight ticket ledger after o (Tried.lacks r) h = h
  Tried-IsPlain ask sight ticket ledger after o (Tried.queues r b) h = h
  Tried-IsPlain ask sight ticket ledger after o (Tried.enters r b) h =
      entered-IsPlain ask sight ticket ledger h

  pub looked-IsPlain :
      (sight : Sight) (before : Ledger)
      → All IsPlain before.claims
      → All IsPlain (looked sight before).claims
  looked-IsPlain sight before h =
      All-Sub IsPlain (reap_rows-Sub sight.same_process (λ probe. true) sight.now sight.dead before)
        h

  -- A step keeps the seats of every row plain.
  pub step-IsPlain :
      {before after : Ledger}
      → LedgerStep os capacity before after
      → All IsPlain before.claims
      → All IsPlain after.claims
  unfolding hand_over persist keep_claim release leave queue_ticket drop_ticket
  step-IsPlain {before} {after} (LedgerStep.looks ask sight ticket o c alone t) h =
      Tried-IsPlain ask sight ticket (looked sight before) after o
        (try_ticket_lem os ask sight ticket before after o t).1 (looked-IsPlain sight before h)
  step-IsPlain {before} (LedgerStep.reaps same answers now dead) h =
      All-Sub IsPlain (reap_rows-Sub same answers now dead before) h
  step-IsPlain {before} (LedgerStep.hands n pid stamp) h =
      update-IsPlain n _ before.claims (λ r. refl) h
  step-IsPlain {before} (LedgerStep.persists n probe) h =
      update-IsPlain n _ before.claims (λ r. refl) h
  step-IsPlain {before} (LedgerStep.keeps n) h = update-IsPlain n _ before.claims (λ r. refl) h
  step-IsPlain {before} (LedgerStep.releases n) h = All-Sub IsPlain (keep-Sub _ before.claims) h
  step-IsPlain {before} (LedgerStep.exits n) h = All-Sub IsPlain (keep-Sub _ before.claims) h
  step-IsPlain (LedgerStep.queues ask gives_up stamp) h = h
  step-IsPlain (LedgerStep.drops ticket) h = h
