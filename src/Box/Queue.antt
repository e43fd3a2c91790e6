-- ===== src/Box/Queue.antt =====
-- src/lab_commons/box/ledger.py: `_decide`, `_try` and `stuck_at_head`, one look of a waiter under the
-- write lock. `os` is the name of this platform's OS. A refusal's sentence is its verdict here.
use lab_commons.Commons.{
  ℕ, ◌+◌, String, Bool, true, false, not, ◌&&◌, Option, none, some, List, [], ◌∷◌, ◌++◌, map, any,
  all, keep, ltb, ◌==◌, str_eq, Result, ok, Error, ◌>>◌, guard,
}
use lab_commons.Commons.Dict.{keys}
use lab_commons.Compute.Resources.{Resources}
use lab_commons.Compute.Admission.{Admission, present, admits}
use lab_commons.Box.Demand.{Capacity, Holding, cores, mem_bytes, seats}
use lab_commons.Box.Room.{Reading, measured}
use lab_commons.Box.Order.{Asked, vector_of, blocks}
use lab_commons.Box.Ledger.{ClaimRow, TicketRow, Ledger, is_external, reap_rows}

pub record Claim : Type 0 where
  pub id : ℕ
  pub deadline : ℕ

abbrev pub holding_of : ClaimRow → Holding
holding_of r = record {
  what = r.what;
  pid = r.pid;
  cpu = r.cpu;
  memory = r.memory;
  seats = r.seats;
  deadline = r.deadline;
  id = r.id;
  key = r.key;
  probe = r.probe;
  kept = r.kept;
}

-- `_read(con)`
unfoldable pub read_rows : Ledger → List Holding
read_rows ledger = map holding_of ledger.claims

-- What a waiter asks for, by which process.
pub record Ask : Type 0 where
  pub pid : ℕ
  pub capacity : Capacity
  pub demand : Resources
  pub wall_s : ℕ
  pub what : String
  pub key : String
  pub fingerprint : Option String

-- What one look sees: the time, the reading, the process table, the external claims found dead and
-- the asker's creation stamp.
pub record Sight : Type 0 where
  pub now : ℕ
  pub reading : Reading
  pub same_process : ℕ → Option ℕ → Bool
  pub dead : List ℕ
  pub stamp : Option ℕ

pub data Outcome : Type 0 where
  admitted : Claim → Outcome
  no_room : Admission → Outcome
  behind : Outcome

-- A claim of the key that is external.
abbrev pub is_key_held : String → ClaimRow → Bool
is_key_held key r = str_eq r.key key && is_external r.probe

abbrev pub asked_of : TicketRow → Asked
asked_of t = record { cpu = t.cpu; memory = t.memory; seats = t.seats }

-- The claim that the ask would be, for the order.
abbrev pub jumper_of : Ask → ℕ → Holding
jumper_of ask now = record {
  what = ask.what;
  pid = ask.pid;
  cpu = cores ask.demand;
  memory = mem_bytes ask.demand;
  seats = seats ask.demand;
  deadline = now + ask.wall_s;
  id = 0;
  key = "";
  probe = none;
  kept = false;
}

abbrev pub claim_row : Ask → Sight → ℕ → ClaimRow
claim_row ask sight n = record {
  id = n;
  pid = ask.pid;
  created = sight.stamp;
  cpu = cores ask.demand;
  memory = mem_bytes ask.demand;
  seats = seats ask.demand;
  deadline = sight.now + ask.wall_s;
  started = sight.now;
  what = ask.what;
  key = ask.key;
  kept = false;
  probe = none;
  fingerprint = ask.fingerprint;
}

-- `DELETE FROM tickets WHERE id = ?`
unfoldable pub drop_ticket : ℕ → Ledger → Ledger
drop_ticket ticket ledger = record ledger {
  tickets = keep (λ (t : TicketRow). not (t.id == ticket)) ledger.tickets;
}

-- The insert of the claim and the delete of its ticket.
unfoldable pub enter_claim : Ask → Sight → ℕ → Ledger → Ledger
unfolding drop_ticket cores mem_bytes seats
enter_claim ask sight ticket ledger = drop_ticket ticket (record ledger {
  claims = ledger.claims ++ claim_row ask sight ledger.next_id ∷ [];
  next_id = ledger.next_id + 1;
})

module _ (os : String) where
  -- `_decide(capacity, held, reading, demand, what)`
  unfoldable pub decide : Ask → Reading → List Holding → Admission
  unfolding admits measured present seats
  decide ask reading held =
      let supply = measured ask.capacity held reading (keys (seats ask.demand)) (some ask.pid) os in
      admits supply.resources ask.demand (present supply) [] (map vector_of held) ask.what

  -- An earlier ticket that orders the ask behind it.
  abbrev pub is_blocking : Ask → Sight → List Holding → ℕ → TicketRow → Bool
  is_blocking ask sight held ticket t =
      ltb t.id ticket
      && blocks os (asked_of t) (jumper_of ask sight.now) ask.capacity held sight.reading sight.now

  -- A holder is never ordered behind a waiter.
  unfoldable pub is_behind : Ask → Sight → List Holding → ℕ → List TicketRow → Bool
  unfolding blocks cores mem_bytes seats
  is_behind ask sight held ticket tickets =
      all (λ (h : Holding). not (h.pid == ask.pid)) held
      && any (is_blocking ask sight held ticket) tickets

  -- What `_try` makes of the verdict, whether it admits, and whether an earlier ticket goes first.
  abbrev pub settle : Ask → Sight → ℕ → Ledger → Admission → Bool → Bool → Outcome × Ledger
  settle ask sight ticket ledger verdict false queued = (no_room verdict, ledger)
  settle ask sight ticket ledger verdict true true = (behind, ledger)
  settle ask sight ticket ledger verdict true false = (
    admitted (record { id = ledger.next_id; deadline = sight.now + ask.wall_s }),
    enter_claim ask sight ticket ledger,
  )

  -- `_try(con, ticket, capacity, demand, ...)`, its transaction included: an error rolls it back.
  unfoldable pub try_ticket : Ask → Sight → ℕ → Ledger → Result (Outcome × Ledger)
  unfolding reap_rows read_rows decide is_behind enter_claim
  try_ticket ask sight ticket before = do
    let ledger = reap_rows sight.same_process (λ probe. true) sight.now sight.dead before
    guard (not (any (is_key_held ask.key) ledger.claims)) Error.duplicate_key
    let held = read_rows ledger
    let verdict = decide ask sight.reading held
    ok (
        settle ask sight ticket ledger verdict verdict.admitted
          (is_behind ask sight held ticket ledger.tickets))

abbrev is_room : Outcome → Bool
is_room (no_room verdict) = true
is_room _ = false

abbrev holds_some : List Holding → Bool
holds_some [] = false
holds_some (h ∷ held) = true

-- `stuck_at_head(outcome, held, gives_up)`
unfoldable pub stuck_at_head : Outcome → List Holding → ℕ → Bool
stuck_at_head outcome held gives_up =
    is_room outcome && holds_some held && all (λ (h : Holding). ltb gives_up h.deadline) held
