-- ===== src/Box/Ledger.antt =====
-- src/lab_commons/box/ledger.py: the rows of the ledger, `reap`, and what ends, hands over, keeps and
-- declares a claim. A table is its rows in the order of their ids; a transaction is one function, since
-- the store serialises them; the rows are those of the box's scope. The process table and the probes
-- are arguments.
use lab_commons.Commons.{
  ℕ, ◌+◌, String, Bool, true, false, not, ◌&&◌, ◌||◌, Option, none, some, List, [], ◌∷◌, ◌++◌, map,
  any, keep, leb, ◌==◌, if◌then◌else◌, Result, ok, ◌>>=◌,
}
use lab_commons.Commons.Int.{ℤ, pos, negsuc}
use lab_commons.Commons.Dict.{Dict}
use lab_commons.Box.Demand.{wall_ceiling_s, cores, mem_bytes, seats, checked}

-- Seconds past its deadline that a claim is kept.
abbrev pub grace_s : ℕ
grace_s = 60

pub record ClaimRow : Type 0 where
  pub id : ℕ
  pub pid : ℕ
  pub created : Option ℕ
  pub cpu : ℕ
  pub memory : ℕ
  pub seats : Dict ℕ
  pub deadline : ℕ
  pub started : ℕ
  pub what : String
  pub key : String
  pub kept : Bool
  pub probe : Option (List String)
  pub fingerprint : Option String

pub record TicketRow : Type 0 where
  pub id : ℕ
  pub pid : ℕ
  pub created : Option ℕ
  pub gives_up : ℕ
  pub what : String
  pub cpu : Option ℕ
  pub memory : Option ℕ
  pub seats : Option (Dict ℕ)

-- `next_id` and `next_ticket` are the keys that AUTOINCREMENT gives next.
pub record Ledger : Type 0 where
  pub claims : List ClaimRow
  pub tickets : List TicketRow
  pub next_id : ℕ
  pub next_ticket : ℕ

abbrev pub among_ids : ℕ → List ℕ → Bool
among_ids n ids = any (λ i. i == n) ids

abbrev pub is_external : Option (List String) → Bool
is_external none = false
is_external (some probe) = true

-- The rows that `_IMPOSSIBLE` leaves.
abbrev pub is_possible : ℕ → ClaimRow → Bool
is_possible now row =
    leb row.started (now + grace_s) && leb row.deadline (now + wall_ceiling_s + grace_s)

abbrev pub is_possible_ticket : ℕ → TicketRow → Bool
is_possible_ticket now row = leb row.gives_up (now + wall_ceiling_s + grace_s)

module _ (same_process : ℕ → Option ℕ → Bool) (answers : List String → Bool) where
  -- `_alive(probe)`: `answers` runs a probe that is not empty.
  unfoldable pub alive : List String → Bool
  alive [] = true
  alive (arg ∷ args) = answers (arg ∷ args)

  abbrev pub probe_fails : Option (List String) → Bool
  probe_fails none = false
  probe_fails (some probe) = not (alive probe)

  abbrev pub is_dead : ℕ → ClaimRow → Bool
  is_dead now row =
      leb now (row.deadline + grace_s)
      && not (same_process row.pid row.created)
      && probe_fails row.probe

  -- `_dead_externals(con, now)`
  unfoldable pub dead_externals : ℕ → Ledger → List ℕ
  unfolding alive
  dead_externals now ledger = map (λ (r : ClaimRow). r.id) (keep (is_dead now) ledger.claims)

  -- The rows that the loop of `_reap` does not delete.
  abbrev pub keeps_claim : ℕ → List ℕ → ClaimRow → Bool
  keeps_claim now dead row =
      leb now (row.deadline + grace_s)
      && (same_process row.pid row.created || is_external row.probe && not (among_ids row.id dead))

  abbrev pub keeps_ticket : ℕ → TicketRow → Bool
  keeps_ticket now row = leb now row.gives_up && same_process row.pid row.created

  -- `_reap(con, now, dead)`
  unfoldable pub reap_rows : ℕ → List ℕ → Ledger → Ledger
  reap_rows now dead ledger = record ledger {
    claims = keep (keeps_claim now dead) (keep (is_possible now) ledger.claims);
    tickets = keep (keeps_ticket now) (keep (is_possible_ticket now) ledger.tickets);
  }

  -- `reap(now)`
  unfoldable pub reap : ℕ → Ledger → Ledger
  unfolding dead_externals reap_rows
  reap now ledger = reap_rows now (dead_externals now ledger) ledger

-- `UPDATE claims SET ... WHERE id = ?`
abbrev pub update : ℕ → (ClaimRow → ClaimRow) → List ClaimRow → List ClaimRow
update n change rows = map (λ (r : ClaimRow). if r.id == n then change r else r) rows

-- `hand_over(claim, pid)`, with the stamp of the process.
unfoldable pub hand_over : ℕ → ℕ → Option ℕ → Ledger → Ledger
hand_over n pid stamp ledger = record ledger {
  claims = update n (λ r. record r { pid = pid; created = stamp; kept = true }) ledger.claims;
}

-- `persist(claim, probe)`
unfoldable pub persist : ℕ → List String → Ledger → Ledger
persist n probe ledger = record ledger {
  claims = update n (λ r. record r { kept = true; probe = some probe }) ledger.claims;
}

-- `release(claim)`
unfoldable pub release : ℕ → Ledger → Ledger
release n ledger = record ledger { claims = keep (λ (r : ClaimRow). not (r.id == n)) ledger.claims }

abbrev whole_seconds : ℤ → ℕ
whole_seconds (pos n) = n
whole_seconds (negsuc n) = 0

-- `declare(demand, wall_s, why, owner=owner)`: the claim's id and deadline; `what` and `key` are the
-- texts made of the owner and the reason.
unfoldable pub declare :
    Dict ℤ → ℤ → String → String → ℕ → ℕ → Option ℕ → Ledger → Result ((ℕ × ℕ) × Ledger)
unfolding checked cores mem_bytes seats
declare demand wall_s what key now pid stamp ledger = do
  asked ← checked demand wall_s
  let deadline = now + whole_seconds wall_s
  let row : ClaimRow = record {
    id = ledger.next_id;
    pid = pid;
    created = stamp;
    cpu = cores asked;
    memory = mem_bytes asked;
    seats = seats asked;
    deadline = deadline;
    started = now;
    what = what;
    key = key;
    kept = true;
    probe = some [];
    fingerprint = none;
  }
  ok (
    (ledger.next_id, deadline),
    record ledger { claims = ledger.claims ++ row ∷ []; next_id = ledger.next_id + 1 },
  )
