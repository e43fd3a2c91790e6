-- ===== src/Box/Slots.antt =====
-- What the transactions of src/lab_commons/box/ledger.py do to the slots of a pool: the claims as the process
-- that holds each, whether it is kept, its whole cores and its bytes.
use mathlib.Core.List.{Sublistᴰ}
use lab_commons.Commons.{
  ℕ, ◌-◌, ◌*◌, ◌≤◌, ◌==◌, String, ◌≡◌, Bool, true, false, not, ◌&&◌, Option, List, [], ◌∷◌, ◌++◌,
  map, keep, ok,
}
use lab_commons.Commons.Dict.{Dict}
use lab_commons.Commons.Int.{ℤ}
use lab_commons.Compute.Resources.{whole}
use lab_commons.Box.Demand.{Capacity}
use lab_commons.Box.Ledger.{ClaimRow, Ledger, reap_rows, hand_over, persist, release, declare}
use lab_commons.Box.Queue.{Ask, Sight, Outcome, drop_ticket, try_ticket}
use lab_commons.Box.Hold.{queue_ticket, leave, keep_claim}
use lab_commons.Box.Pool.{Allotment, cpu_of, memory_of}

pub record Slot : Type 0 where
  pub pid : ℕ
  pub kept : Bool
  pub amounts : Allotment

abbrev pub slot : ClaimRow → Slot
slot r = record { pid = r.pid; kept = r.kept; amounts = record { cpu = r.cpu; memory = r.memory } }

abbrev pub slots : Ledger → List Slot
slots ledger = map slot ledger.claims

abbrev pub all_amounts : List Slot → List Allotment
all_amounts held = map (λ (s : Slot). s.amounts) held

-- The amounts of all slots but the process's own, which are those that it has not kept.
abbrev pub amounts_beside : ℕ → List Slot → List Allotment
amounts_beside pid held = all_amounts (keep (λ (s : Slot). not (s.pid == pid && not s.kept)) held)

-- Who acts on the pool: a process that looks, one that declares a claim, and any other transaction.
pub data Act : Type 0 where
  looking : ℕ → Act
  declaring tending : Act

-- What a pool of this capacity allows.
pub data SlotStep (capacity : Capacity) : Act → List Slot → List Slot → Type 0 where
  frees_at_look :
      {pid : ℕ} {held left : List Slot}
      → Sublistᴰ left held
      → SlotStep capacity (looking pid) held left
  frees : {held left : List Slot} → Sublistᴰ left held → SlotStep capacity tending held left
  changes :
      {held after : List Slot}
      → all_amounts after ≡ all_amounts held
      → SlotStep capacity tending held after
  allots :
      {held left : List Slot} (s : Slot)
      → Sublistᴰ left held
      → s.kept ≡ false
      → s.amounts.cpu * whole ≤ capacity.cpu - cpu_of (amounts_beside s.pid left)
      → s.amounts.memory ≤ capacity.memory - memory_of (amounts_beside s.pid left)
      → SlotStep capacity (looking s.pid) held (left ++ s ∷ [])
  declares :
      {held : List Slot} (s : Slot)
      → s.kept ≡ true
      → SlotStep capacity declaring held (held ++ s ∷ [])

-- One transaction of any process on the ledger of a box of this capacity.
pub data LedgerMove (os : String) (capacity : Capacity) : Act → Ledger → Ledger → Type 0 where
  looks :
      {before after : Ledger} (ask : Ask) (sight : Sight) (ticket : ℕ) (o : Outcome)
      → ask.capacity ≡ capacity
      → try_ticket os ask sight ticket before ≡ ok (o, after)
      → LedgerMove os capacity (looking ask.pid) before after
  declares :
      {before after : Ledger} (demand : Dict ℤ) (wall_s : ℤ) (what key : String) (now pid : ℕ)
      (stamp : Option ℕ) (claim : ℕ × ℕ)
      → declare demand wall_s what key now pid stamp before ≡ ok (claim, after)
      → LedgerMove os capacity declaring before after
  reaps :
      {before : Ledger} (same : ℕ → Option ℕ → Bool) (answers : List String → Bool) (now : ℕ)
      (dead : List ℕ)
      → LedgerMove os capacity tending before (reap_rows same answers now dead before)
  hands :
      {before : Ledger} (n pid : ℕ) (stamp : Option ℕ)
      → LedgerMove os capacity tending before (hand_over n pid stamp before)
  persists :
      {before : Ledger} (n : ℕ) (probe : List String)
      → LedgerMove os capacity tending before (persist n probe before)
  keeps : {before : Ledger} (n : ℕ) → LedgerMove os capacity tending before (keep_claim n before)
  releases : {before : Ledger} (n : ℕ) → LedgerMove os capacity tending before (release n before)
  exits : {before : Ledger} (n : ℕ) → LedgerMove os capacity tending before (leave n before)
  queues :
      {before : Ledger} (ask : Ask) (gives_up : ℕ) (stamp : Option ℕ)
      → LedgerMove os capacity tending before (queue_ticket ask gives_up stamp before).1
  drops :
      {before : Ledger} (ticket : ℕ)
      → LedgerMove os capacity tending before (drop_ticket ticket before)
