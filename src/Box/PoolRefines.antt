-- ===== src/Box/PoolRefines.antt =====
-- The operations of src/lab_commons/box/ledger.py on claims, as steps of the pool of Box/Pool.antt.
use mathlib.Core.List.{Sublistᴰ}
use mathlib.Core.List.Sublistᴰ
use lab_commons.Commons.{
  ℕ, ◌-◌, ◌*◌, ◌≤◌, String, ◌≡◌, refl, sym, ap, subst, true, some, List, [], ◌∷◌, arith,
  sum_of-append, All,
}
use lab_commons.Compute.Resources.{whole}
use lab_commons.Box.Demand.{cpu_name, mem_name, Capacity, cores, mem_bytes}
use lab_commons.Box.Measure.{SeatsNoShare, verdict-room_cpu, verdict-room_mem}
use lab_commons.Box.Ledger.{Ledger, hand_over, persist, release}
use lab_commons.Box.Queue.{
  read_rows, Ask, Sight, Outcome, claim_row, enter_claim, drop_ticket, decide,
}
use lab_commons.Box.Hold.{queue_ticket, leave, keep_claim}
use lab_commons.Box.Pool.{
  Allotment, allotment, cpu_of, memory_of, pool, PoolStep, IsPlain, keep-Sub, map-Sub,
  reap_rows-Sub, names-no_cpu, names-no_mem, update-allotments,
}
use lab_commons.Box.PoolSteps.{
  PlainBox, Tried, looked, owns_none, try_ticket_lem, room_cpu-le, room_memory-le,
  amount-of_amounts_le, cores_le, held-cpu, held-memory, map-snoc,
}
use lab_commons.Box.LedgerSteps.{LedgerStep, step-IsPlain, looked-IsPlain}

module _ (os : String) (capacity : Capacity) (plain : PlainBox os capacity) where
  -- What the ledger holds once the ask has entered.
  module _ (ask : Ask) (sight : Sight) (ledger : Ledger) (same_box : ask.capacity ≡ capacity)
      (plain_rows : All IsPlain ledger.claims)
      (alone : owns_none (some ask.pid) (read_rows ledger) ≡ true)
      (fit_now : (decide os ask sight.reading (read_rows ledger)).admitted ≡ true) where
    sound : SeatsNoShare os ask.capacity (read_rows ledger)
    unfolding read_rows
    sound = record {
      capacity_cpu = rw same_box plain.capacity_cpu;
      capacity_mem = rw same_box plain.capacity_mem;
      held_cpu = names-no_cpu ledger.claims plain_rows;
      held_mem = names-no_mem ledger.claims plain_rows;
      os_cpu = plain.os_cpu;
      os_mem = plain.os_mem;
    }

    entered_cpu : cores ask.demand * whole ≤ capacity.cpu - cpu_of (pool ledger)
    unfolding decide read_rows
    entered_cpu = omega (
      arith,
      ap (λ (c : Capacity). c.cpu) same_box,
      verdict-room_cpu os ask.capacity (read_rows ledger) sight.reading (some ask.pid) sound
          ask.demand ask.what fit_now,
      room_cpu-le ask.capacity (read_rows ledger) sight.reading (some ask.pid) alone,
      held-cpu ledger.claims,
      cores_le ask.demand,
      amount-of_amounts_le cpu_name ask.demand,
    )

    entered_memory : mem_bytes ask.demand ≤ capacity.memory - memory_of (pool ledger)
    unfolding decide read_rows mem_bytes
    entered_memory = omega (
      arith,
      ap (λ (c : Capacity). c.memory) same_box,
      verdict-room_mem os ask.capacity (read_rows ledger) sight.reading (some ask.pid) sound
          ask.demand ask.what fit_now,
      room_memory-le ask.capacity (read_rows ledger) sight.reading (some ask.pid) alone,
      held-memory ledger.claims,
      amount-of_amounts_le mem_name ask.demand,
    )

  frees_refl : (ledger : Ledger) → PoolStep capacity (pool ledger) (pool ledger)
  frees_refl ledger = PoolStep.frees (Sublistᴰ.refl (pool ledger))

  reaped-Sub :
      (sight : Sight) (before : Ledger) → Sublistᴰ (pool (looked sight before)) (pool before)
  reaped-Sub sight before =
      map-Sub allotment
        (reap_rows-Sub sight.same_process (λ probe. true) sight.now sight.dead before)

  Tried-refines :
      (ask : Ask) (sight : Sight) (ticket : ℕ) (before after : Ledger) (o : Outcome)
      → ask.capacity ≡ capacity
      → owns_none (some ask.pid) (read_rows (looked sight before)) ≡ true
      → Tried os ask sight ticket (looked sight before) o after
      → All IsPlain (looked sight before).claims
      → PoolStep capacity (pool before) (pool after)
  unfolding enter_claim
  Tried-refines ask sight ticket before after o c alone (Tried.lacks r) h =
      PoolStep.frees (reaped-Sub sight before)
  Tried-refines ask sight ticket before after o c alone (Tried.queues r b) h =
      PoolStep.frees (reaped-Sub sight before)
  Tried-refines ask sight ticket before after o c alone (Tried.enters r b) h =
      subst (λ l. PoolStep capacity (pool before) l)
        (sym (
          map-snoc allotment (looked sight before).claims
            (claim_row ask sight (looked sight before).next_id)))
        (PoolStep.allots (record { cpu = cores ask.demand; memory = mem_bytes ask.demand })
          (reaped-Sub sight before) (entered_cpu ask sight (looked sight before) c h alone r)
          (entered_memory ask sight (looked sight before) c h alone r))

  same_pool : {held left : List Allotment} → left ≡ held → PoolStep capacity held left
  same_pool {held} e = PoolStep.frees (rw e (Sublistᴰ.refl held))

  -- Each step of the ledger is a step of the pool: some allotments leave, and at most one joins, with no more
  -- cores and bytes than those that are left leave of the capacity. The OS and the seats of the capacity and
  -- of the claims before are not named like a share.
  pub step-refines :
      {before after : Ledger}
      → LedgerStep os capacity before after
      → All IsPlain before.claims
      → PoolStep capacity (pool before) (pool after)
  unfolding hand_over persist keep_claim release leave queue_ticket drop_ticket
  step-refines {before} {after} (LedgerStep.looks ask sight ticket o c alone t) h =
      Tried-refines ask sight ticket before after o c alone
        (try_ticket_lem os ask sight ticket before after o t).1
        (looked-IsPlain os capacity sight before h)
  step-refines {before} (LedgerStep.reaps same answers now dead) h =
      PoolStep.frees (map-Sub allotment (reap_rows-Sub same answers now dead before))
  step-refines {before} (LedgerStep.hands n pid stamp) h =
      same_pool (update-allotments n _ before.claims (λ r. refl))
  step-refines {before} (LedgerStep.persists n probe) h =
      same_pool (update-allotments n _ before.claims (λ r. refl))
  step-refines {before} (LedgerStep.keeps n) h =
      same_pool (update-allotments n _ before.claims (λ r. refl))
  step-refines {before} (LedgerStep.releases n) h =
      PoolStep.frees (map-Sub allotment (keep-Sub _ before.claims))
  step-refines {before} (LedgerStep.exits n) h =
      PoolStep.frees (map-Sub allotment (keep-Sub _ before.claims))
  step-refines {before} (LedgerStep.queues ask gives_up stamp) h = frees_refl before
  step-refines {before} (LedgerStep.drops ticket) h = frees_refl before

  -- The claims stay within the capacity.
  pub record Within (ledger : Ledger) : Type 0 where
    pub plain_rows : All IsPlain ledger.claims
    pub cpu_within : cpu_of (pool ledger) ≤ capacity.cpu
    pub memory_within : memory_of (pool ledger) ≤ capacity.memory

  -- Any number of transactions.
  pub data Reaches : Ledger → Ledger → Type 0 where
    here : {ledger : Ledger} → Reaches ledger ledger
    then_step :
        {first before after : Ledger}
        → Reaches first before
        → LedgerStep os capacity before after
        → Reaches first after

  cpu-Sub : {left held : List Allotment} → Sublistᴰ left held → cpu_of left ≤ cpu_of held
  cpu-Sub Sublistᴰ.slnil = omega arith
  cpu-Sub (Sublistᴰ.cons s) = omega (arith, cpu-Sub s)
  cpu-Sub (Sublistᴰ.cons-cons e s) = omega (arith, cpu-Sub s, ap (λ (a : Allotment). a.cpu) e)

  memory-Sub : {left held : List Allotment} → Sublistᴰ left held → memory_of left ≤ memory_of held
  memory-Sub Sublistᴰ.slnil = omega arith
  memory-Sub (Sublistᴰ.cons s) = omega (arith, memory-Sub s)
  memory-Sub (Sublistᴰ.cons-cons e s) =
      omega (arith, memory-Sub s, ap (λ (a : Allotment). a.memory) e)

  pool-within :
      {held after : List Allotment}
      → PoolStep capacity held after
      → cpu_of held ≤ capacity.cpu
      → memory_of held ≤ capacity.memory
      → (cpu_of after ≤ capacity.cpu) × (memory_of after ≤ capacity.memory)
  pool-within (PoolStep.frees s) c m = (omega (arith, cpu-Sub s), omega (arith, memory-Sub s))
  pool-within (PoolStep.allots {left = left} a s fc fm) c m = (
    omega (arith, cpu-Sub s, sum_of-append (λ (b : Allotment). b.cpu * whole) left (a ∷ [])),
    omega (arith, memory-Sub s, sum_of-append (λ (b : Allotment). b.memory) left (a ∷ [])),
  )

  -- When the claims are within the capacity they are so after any number of transactions, the cores of
  -- all claims together and their bytes, as long as no process takes a claim beside one that counts as
  -- its own.
  pub Reaches-Within : {first last : Ledger} → Reaches first last → Within first → Within last
  Reaches-Within here w = w
  Reaches-Within (then_step r s) w =
      let v = Reaches-Within r w in
      let p = pool-within (step-refines s v.plain_rows) v.cpu_within v.memory_within in
      record {
        plain_rows = step-IsPlain os capacity s v.plain_rows;
        cpu_within = p.0;
        memory_within = p.1;
      }
