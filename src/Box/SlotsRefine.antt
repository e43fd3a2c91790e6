-- ===== src/Box/SlotsRefine.antt =====
-- The transactions of src/lab_commons/box/ledger.py, as steps of the slots of Box/Slots.antt.
use mathlib.Core.List.{Sublistᴰ}
use lab_commons.Commons.{
  Option, ◌+◌, ℕ, ◌-◌, ◌*◌, ◌≤◌, ◌==◌, String, ◌≡◌, refl, sym, ap, subst, ◌∙◌, true, not, ◌&&◌,
  some, List, [], ◌∷◌, map, keep, sum_of, arith, All, ok, ok_inj, >>=-eq-ok, Bool-cases, inl, inr,
}
use lab_commons.Commons.Int.{ℤ}
use lab_commons.Commons.Dict.{Dict}
use lab_commons.Compute.Resources.{whole}
use lab_commons.Box.Demand.{cpu_name, mem_name, Capacity, Holding, cores, mem_bytes, checked}
use lab_commons.Box.Room.{Reading, is_own, room_cpu, room_memory}
use lab_commons.Box.Measure.{SeatsNoShare, verdict-room_cpu, verdict-room_mem}
use lab_commons.Box.Ledger.{ClaimRow, Ledger, update, hand_over, persist, release, declare}
use lab_commons.Box.Queue.{
  holding_of, read_rows, Ask, Sight, Outcome, claim_row, enter_claim, drop_ticket, decide,
}
use lab_commons.Box.Hold.{queue_ticket, leave, keep_claim}
use lab_commons.Box.Pool.{
  allotment, cpu_of, memory_of, IsPlain, keep-Sub, map-Sub, reap_rows-Sub, names-no_cpu,
  names-no_mem, update-allotments,
}
use lab_commons.Box.PoolSteps.{
  PlainBox, Tried, looked, try_ticket_lem, amount-of_amounts_le, cores_le, map-snoc,
}
use lab_commons.Box.LedgerSteps.{looked-IsPlain}
use lab_commons.Box.Slots.{
  slot, slots, all_amounts, amounts_beside, Act, looking, declaring, SlotStep, LedgerMove,
}

-- What the others hold, claim by claim and slot by slot.
others-cpu :
    (pid : ℕ) (rows : List ClaimRow)
    → sum_of
        (λ (h : Holding). h.cpu * whole)
        (keep (λ h. not (is_own (some pid) h)) (map holding_of rows))
      ≡ cpu_of (amounts_beside pid (map slot rows))
others-cpu pid [] = refl
others-cpu pid (r ∷ rows) = elim (Bool-cases (r.pid == pid && not r.kept)) [
  | inl e ↦ rw e (others-cpu pid rows)
  | inr e ↦ rw e (ap (λ n. r.cpu * whole + n) (others-cpu pid rows))
]

others-memory :
    (pid : ℕ) (rows : List ClaimRow)
    → sum_of
        (λ (h : Holding). h.memory)
        (keep (λ h. not (is_own (some pid) h)) (map holding_of rows))
      ≡ memory_of (amounts_beside pid (map slot rows))
others-memory pid [] = refl
others-memory pid (r ∷ rows) = elim (Bool-cases (r.pid == pid && not r.kept)) [
  | inl e ↦ rw e (others-memory pid rows)
  | inr e ↦ rw e (ap (λ n. r.memory + n) (others-memory pid rows))
]

module _ (capacity : Capacity) (held : List Holding) (reading : Reading) (pid : ℕ) where
  room_cpu-beside :
      room_cpu capacity held reading (some pid)
      ≤ capacity.cpu
        - sum_of (λ (h : Holding). h.cpu * whole) (keep (λ h. not (is_own (some pid) h)) held)
  unfolding room_cpu
  room_cpu-beside = omega arith

  room_memory-beside :
      room_memory capacity held reading (some pid)
      ≤ capacity.memory
        - sum_of (λ (h : Holding). h.memory) (keep (λ h. not (is_own (some pid) h)) held)
  unfolding room_memory
  room_memory-beside = omega arith

module _ (os : String) (capacity : Capacity) (plain : PlainBox os capacity) where
  module _ (ask : Ask) (sight : Sight) (ledger : Ledger) (same_box : ask.capacity ≡ capacity)
      (plain_rows : All IsPlain ledger.claims)
      (fit_now : (decide os ask sight.reading (read_rows ledger)).admitted ≡ true) where
    sound : SeatsNoShare os ask.capacity (read_rows ledger)
    unfolding read_rows
    sound = record {
      capacity_cpu = rw same_box plain.capacity_cpu;
      capacity_mem = rw same_box plain.capacity_mem;
      held_cpu = names-no_cpu ledger.claims plain_rows;
      held_mem = names-no_mem ledger.claims plain_rows;
      os_cpu = plain.os_cpu;
      os_mem = plain.os_mem;
    }

    allotted_cpu :
        cores ask.demand * whole ≤ capacity.cpu - cpu_of (amounts_beside ask.pid (slots ledger))
    unfolding decide read_rows
    allotted_cpu = omega (
      arith,
      ap (λ (c : Capacity). c.cpu) same_box,
      verdict-room_cpu os ask.capacity (read_rows ledger) sight.reading (some ask.pid) sound
          ask.demand ask.what fit_now,
      room_cpu-beside ask.capacity (read_rows ledger) sight.reading ask.pid,
      others-cpu ask.pid ledger.claims,
      cores_le ask.demand,
      amount-of_amounts_le cpu_name ask.demand,
    )

    allotted_memory :
        mem_bytes ask.demand ≤ capacity.memory - memory_of (amounts_beside ask.pid (slots ledger))
    unfolding decide read_rows mem_bytes
    allotted_memory = omega (
      arith,
      ap (λ (c : Capacity). c.memory) same_box,
      verdict-room_mem os ask.capacity (read_rows ledger) sight.reading (some ask.pid) sound
          ask.demand ask.what fit_now,
      room_memory-beside ask.capacity (read_rows ledger) sight.reading ask.pid,
      others-memory ask.pid ledger.claims,
      amount-of_amounts_le mem_name ask.demand,
    )

  reaped-slots :
      (sight : Sight) (before : Ledger) → Sublistᴰ (slots (looked sight before)) (slots before)
  reaped-slots sight before =
      map-Sub slot (reap_rows-Sub sight.same_process (λ probe. true) sight.now sight.dead before)

  Tried-SlotStep :
      (ask : Ask) (sight : Sight) (ticket : ℕ) (before after : Ledger) (o : Outcome)
      → ask.capacity ≡ capacity
      → Tried os ask sight ticket (looked sight before) o after
      → All IsPlain (looked sight before).claims
      → SlotStep capacity (looking ask.pid) (slots before) (slots after)
  unfolding enter_claim
  Tried-SlotStep ask sight ticket before after o c (Tried.lacks r) h =
      SlotStep.frees_at_look (reaped-slots sight before)
  Tried-SlotStep ask sight ticket before after o c (Tried.queues r b) h =
      SlotStep.frees_at_look (reaped-slots sight before)
  Tried-SlotStep ask sight ticket before after o c (Tried.enters r b) h =
      let l = looked sight before in
      subst (λ held. SlotStep capacity (looking ask.pid) (slots before) held)
        (sym (map-snoc slot l.claims (claim_row ask sight l.next_id)))
        (SlotStep.allots (slot (claim_row ask sight l.next_id)) (reaped-slots sight before) refl
          (allotted_cpu ask sight l c h r) (allotted_memory ask sight l c h r))

  declare-SlotStep :
      (before after : Ledger) (demand : Dict ℤ) (wall_s : ℤ) (what key : String) (now pid : ℕ)
      (stamp : Option ℕ) (claim : ℕ × ℕ)
      → declare demand wall_s what key now pid stamp before ≡ ok (claim, after)
      → SlotStep capacity declaring (slots before) (slots after)
  unfolding declare
  declare-SlotStep before after demand wall_s what key now pid stamp claim h =
      let (asked, e, end) = >>=-eq-ok (checked demand wall_s) _ h in
      subst (λ (r : (ℕ × ℕ) × Ledger). SlotStep capacity declaring (slots before) (slots r.1))
        (ok_inj end)
        (subst (λ held. SlotStep capacity declaring (slots before) held)
          (sym (map-snoc slot before.claims _)) (SlotStep.declares _ refl))

  amounts_of : (rows : List ClaimRow) → all_amounts (map slot rows) ≡ map allotment rows
  amounts_of [] = refl
  amounts_of (r ∷ rows) = ap (λ l. allotment r ∷ l) (amounts_of rows)

  same_amounts :
      (n : ℕ) (change : ClaimRow → ClaimRow) (ledger : Ledger)
      → ((r : ClaimRow) → allotment (change r) ≡ allotment r)
      → all_amounts (map slot (update n change ledger.claims)) ≡ all_amounts (slots ledger)
  same_amounts n change ledger h =
      amounts_of (update n change ledger.claims)
      ∙ update-allotments n change ledger.claims h
      ∙ sym (amounts_of ledger.claims)

  -- On a box whose OS and seats, as those of the claims before, are not named like a share, every transaction
  -- of the ledger is a step of its slots. A look frees slots, and may add one that is not kept, with no more
  -- cores and bytes than the capacity less those of the slots that stay, save the looking process's own that
  -- are not kept. A declaration adds a slot that is kept, of any size, and frees none. Any other transaction
  -- adds none: it frees slots, or leaves the amounts of all as they are. Each look asks of the one capacity.
  pub move-refines :
      {act : Act} {before after : Ledger}
      → LedgerMove os capacity act before after
      → All IsPlain before.claims
      → SlotStep capacity act (slots before) (slots after)
  unfolding hand_over persist keep_claim release leave queue_ticket drop_ticket
  move-refines {before = before} {after = after} (LedgerMove.looks ask sight ticket o c t) h =
      Tried-SlotStep ask sight ticket before after o c
        (try_ticket_lem os ask sight ticket before after o t).1
        (looked-IsPlain os capacity sight before h)
  move-refines {before = before} {after = after}
        (LedgerMove.declares demand wall_s what key now pid stamp claim d) h =
      declare-SlotStep before after demand wall_s what key now pid stamp claim d
  move-refines {before = before} (LedgerMove.reaps same answers now dead) h =
      SlotStep.frees (map-Sub slot (reap_rows-Sub same answers now dead before))
  move-refines {before = before} (LedgerMove.hands n pid stamp) h =
      SlotStep.changes (same_amounts n _ before (λ r. refl))
  move-refines {before = before} (LedgerMove.persists n probe) h =
      SlotStep.changes (same_amounts n _ before (λ r. refl))
  move-refines {before = before} (LedgerMove.keeps n) h =
      SlotStep.changes (same_amounts n _ before (λ r. refl))
  move-refines {before = before} (LedgerMove.releases n) h =
      SlotStep.frees (map-Sub slot (keep-Sub _ before.claims))
  move-refines {before = before} (LedgerMove.exits n) h =
      SlotStep.frees (map-Sub slot (keep-Sub _ before.claims))
  move-refines (LedgerMove.queues ask gives_up stamp) h = SlotStep.changes refl
  move-refines (LedgerMove.drops ticket) h = SlotStep.changes refl
