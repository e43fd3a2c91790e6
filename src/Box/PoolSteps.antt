-- ===== src/Box/PoolSteps.antt =====
-- The steps of the ledger of src/lab_commons/box/ledger.py, as steps of its pool.
use lab_commons.Commons.{
  ℕ, zero, suc, ◌+◌, ◌-◌, ◌*◌, ◌≤◌, String, ◌≡◌, refl, ap, subst, Bool, true, false, not, Option,
  List, [], ◌∷◌, ◌++◌, map, arith, str_eq, keep, all, any, sum_of, ok, Error, guard-eq-ok, ok_inj,
}
use lab_commons.Commons.Dict.{Dict, elem, keys}
use lab_commons.Compute.Resources.{whole, amount, of_amounts}
use lab_commons.Compute.Admission.{Admission}
use lab_commons.Box.Demand.{cpu_name, mem_name, Capacity, Holding, cores}
use lab_commons.Box.Room.{Reading, is_own, room_cpu, room_memory}
use lab_commons.Box.Ledger.{ClaimRow, Ledger, reap_rows}
use lab_commons.Box.Queue.{
  holding_of, read_rows, Ask, Sight, Outcome, is_key_held, enter_claim, decide, is_behind, settle,
  try_ticket,
}
use lab_commons.Box.Pool.{allotment, cpu_of, memory_of}

-- `os` and the capacity's seats are not named like a share of the machine.
pub record PlainBox (os : String) (capacity : Capacity) : Type 0 where
  pub capacity_cpu : elem cpu_name (keys capacity.seats) ≡ false
  pub capacity_mem : elem mem_name (keys capacity.seats) ≡ false
  pub os_cpu : str_eq os cpu_name ≡ false
  pub os_mem : str_eq os mem_name ≡ false

pub amount-of_amounts_le : (k : String) (d : Dict ℕ) → amount k d ≤ amount k (of_amounts d)
unfolding amount of_amounts
amount-of_amounts_le k [] = omega arith
amount-of_amounts_le k ((j, zero) ∷ d) = ground (arith, amount-of_amounts_le k d)
amount-of_amounts_le k ((j, suc n) ∷ d) = ground (arith, amount-of_amounts_le k d)

-- No claim of the process counts as its own.
abbrev pub owns_none : Option ℕ → List Holding → Bool
owns_none asker held = all (λ h. not (is_own asker h)) held

own_none :
    (asker : Option ℕ) (held : List Holding)
    → owns_none asker held ≡ true
    → keep (is_own asker) held ≡ []
own_none asker [] h = refl
own_none asker (x ∷ held) h = ground (arith, own_none asker held)

others_all :
    (asker : Option ℕ) (held : List Holding)
    → owns_none asker held ≡ true
    → keep (λ h. not (is_own asker h)) held ≡ held
others_all asker [] h = refl
others_all asker (x ∷ held) h = ground (arith, others_all asker held)

module _ (capacity : Capacity) (held : List Holding) (reading : Reading) (asker : Option ℕ)
    (alone : owns_none asker held ≡ true) where
  pub room_cpu-le :
      room_cpu capacity held reading asker ≤ capacity.cpu - sum_of (λ h. h.cpu * whole) held
  unfolding room_cpu
  room_cpu-le = rw (own_none asker held alone) (rw (others_all asker held alone) (omega arith))

  pub room_memory-le :
      room_memory capacity held reading asker ≤ capacity.memory - sum_of (λ h. h.memory) held
  unfolding room_memory
  room_memory-le = rw (own_none asker held alone) (rw (others_all asker held alone) (omega arith))

pub held-cpu :
    (rows : List ClaimRow)
    → sum_of (λ (h : Holding). h.cpu * whole) (map holding_of rows) ≡ cpu_of (map allotment rows)
held-cpu [] = refl
held-cpu (r ∷ rows) = ap (λ n. r.cpu * whole + n) (held-cpu rows)

pub held-memory :
    (rows : List ClaimRow)
    → sum_of (λ (h : Holding). h.memory) (map holding_of rows) ≡ memory_of (map allotment rows)
held-memory [] = refl
held-memory (r ∷ rows) = ap (λ n. r.memory + n) (held-memory rows)

pub map-snoc {ℓ κ} :
    {A : Type ℓ} {B : Type κ} (f : A → B) (xs : List A) (x : A)
    → map f (xs ++ x ∷ []) ≡ map f xs ++ f x ∷ []
map-snoc f [] x = refl
map-snoc f (y ∷ xs) x = ap (λ l. f y ∷ l) (map-snoc f xs x)

pub cores_le : (d : Dict ℕ) → cores d * whole ≤ amount cpu_name d
unfolding cores
cores_le d = omega arith

-- What a look that returns came to.
pub data Tried (os : String) (ask : Ask) (sight : Sight) (ticket : ℕ) (ledger : Ledger)
    : Outcome → Ledger → Type 0 where
  lacks :
      (decide os ask sight.reading (read_rows ledger)).admitted ≡ false
      → Tried os ask sight ticket ledger
          (Outcome.no_room (decide os ask sight.reading (read_rows ledger)))
          ledger
  queues :
      (decide os ask sight.reading (read_rows ledger)).admitted ≡ true
      → is_behind os ask sight (read_rows ledger) ticket ledger.tickets ≡ true
      → Tried os ask sight ticket ledger Outcome.behind ledger
  enters :
      (decide os ask sight.reading (read_rows ledger)).admitted ≡ true
      → is_behind os ask sight (read_rows ledger) ticket ledger.tickets ≡ false
      → Tried os ask sight ticket ledger
          (Outcome.admitted (record { id = ledger.next_id; deadline = sight.now + ask.wall_s }))
          (enter_claim ask sight ticket ledger)

-- The ledger that a look decides on.
abbrev pub looked : Sight → Ledger → Ledger
looked sight before = reap_rows sight.same_process (λ probe. true) sight.now sight.dead before

module _ (os : String) (ask : Ask) (sight : Sight) (ticket : ℕ) (ledger : Ledger) where
  abbrev verdict : Admission
  verdict = decide os ask sight.reading (read_rows ledger)

  abbrev goes_behind : Bool
  goes_behind = is_behind os ask sight (read_rows ledger) ticket ledger.tickets

  settle_lem :
      (a q : Bool)
      → verdict.admitted ≡ a
      → goes_behind ≡ q
      → let r = settle os ask sight ticket ledger verdict a q in
        Tried os ask sight ticket ledger r.0 r.1
  settle_lem false q h b = Tried.lacks h
  settle_lem true true h b = Tried.queues h b
  settle_lem true false h b = Tried.enters h b

-- A look that returns found no external claim of its key, and came to one of the three.
pub try_ticket_lem :
    (os : String) (ask : Ask) (sight : Sight) (ticket : ℕ) (before after : Ledger) (o : Outcome)
    → try_ticket os ask sight ticket before ≡ ok (o, after)
    → (any (is_key_held ask.key) (looked sight before).claims ≡ false)
      × Tried os ask sight ticket (looked sight before) o after
unfolding try_ticket
try_ticket_lem os ask sight ticket before after o h =
    let g =
      guard-eq-ok (not (any (is_key_held ask.key) (looked sight before).claims)) Error.duplicate_key
        _ h in
    (
      ground (arith, g.0),
      subst (λ (r : Outcome × Ledger). Tried os ask sight ticket (looked sight before) r.0 r.1)
          (ok_inj g.1) (settle_lem os ask sight ticket (looked sight before) _ _ refl refl),
    )
