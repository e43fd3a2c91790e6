-- ===== src/Box/Hold.antt =====
-- src/lab_commons/box/ledger.py: `hold` and `take`. `os` is the name of this platform's OS.
use lab_commons.Commons.{
  ℕ, ◌+◌, String, Bool, true, false, not, ◌&&◌, Option, none, some, List, [], ◌∷◌, ◌++◌, keep, leb,
  ◌==◌, Result, ok, err, Error, ◌>>=◌, ◌>>◌, guard,
}
use lab_commons.Commons.Int.{ℤ, pos, negsuc}
use lab_commons.Commons.Dict.{Dict, keys}
use lab_commons.Compute.Resources.{Resources}
use lab_commons.Compute.Admission.{present, admits}
use lab_commons.Box.Demand.{Capacity, wall_ceiling_s, cores, mem_bytes, seats, checked}
use lab_commons.Box.Room.{size}
use lab_commons.Box.Ledger.{ClaimRow, TicketRow, Ledger, update}
use lab_commons.Box.Queue.{Ask, drop_ticket}
use lab_commons.Box.Wait.{Look, Waited, ended, waiting, wait}

-- What `hold` is asked for.
pub record Request : Type 0 where
  pub demand : Dict ℤ
  pub wall_s : ℤ
  pub what : String
  pub queue_s : ℤ
  pub capacity : Capacity
  pub key : String
  pub fingerprint : Option String
  pub outside : Bool

-- The asking process, whether its environment names an enclosing claim, the time and its stamp.
pub record Asker : Type 0 where
  pub pid : ℕ
  pub inside : Bool
  pub now : ℕ
  pub stamp : Option ℕ

-- The insert of a ticket.
unfoldable pub queue_ticket : Ask → ℕ → Option ℕ → Ledger → ℕ × Ledger
unfolding cores mem_bytes seats
queue_ticket ask gives_up stamp ledger =
    let row : TicketRow = record {
      id = ledger.next_ticket;
      pid = ask.pid;
      created = stamp;
      gives_up = gives_up;
      what = ask.what;
      cpu = some (cores ask.demand);
      memory = some (mem_bytes ask.demand);
      seats = some (seats ask.demand);
    } in
    (
      ledger.next_ticket,
      record ledger { tickets = ledger.tickets ++ row ∷ []; next_ticket = ledger.next_ticket + 1 },
    )

-- `DELETE FROM claims WHERE id = ? AND kept = 0`
unfoldable pub leave : ℕ → Ledger → Ledger
leave n ledger = record ledger {
  claims = keep (λ (r : ClaimRow). not (r.id == n && not r.kept)) ledger.claims;
}

-- `UPDATE claims SET kept = 1 WHERE id = ?`
unfoldable pub keep_claim : ℕ → Ledger → Ledger
keep_claim n ledger = record ledger {
  claims = update n (λ r. record r { kept = true }) ledger.claims;
}

abbrev pub seconds : ℤ → ℕ
seconds (pos n) = n
seconds (negsuc n) = 0

-- `0 <= queue_s <= WALL_CEILING_S`
abbrev pub may_queue : ℤ → Bool
may_queue (pos n) = leb n wall_ceiling_s
may_queue (negsuc n) = false

abbrev pub no_seats : Dict ℕ → Bool
no_seats [] = true
no_seats (i ∷ d) = false

-- How a `hold` came out: its body ran under the claim that encloses it, or it waited, to the end or not.
pub data Held : Type 0 where
  enclosed : Held
  finished : Waited → Held

-- The rule on the box's size.
unfoldable pub can_ever : Capacity → Resources → String → Bool
unfolding size admits present seats
can_ever capacity demand what =
    let whole = size capacity (keys (seats demand)) in
    (admits whole.resources demand (present whole) [] [] what).admitted

-- `hold` up to its first transaction: `none` when the claim of the tree holds the demand already.
unfoldable pub prepare : Request → Asker → Result (Option Ask)
unfolding checked can_ever seats
prepare request asker = do
  guard (may_queue request.queue_s) Error.value_error
  demand ← checked request.demand request.wall_s
  elim (asker.inside && not request.outside && no_seats (seats demand)) [
    | true ↦ ok none
    | false ↦
        guard (can_ever request.capacity demand request.what) Error.refused
        >> ok (
            some (record {
              pid = asker.pid;
              capacity = request.capacity;
              demand = demand;
              wall_s = seconds request.wall_s;
              what = request.what;
              key = request.key;
              fingerprint = request.fingerprint;
            }))
  ]

-- The transactions of `hold` until its body runs: its ticket is dropped however the wait ends.
unfoldable pub enter : String → Ask → ℕ → Option ℕ → List Look → Ledger → Waited × Ledger
unfolding queue_ticket wait drop_ticket
enter os ask gives_up stamp looks before =
    let (ticket, queued) = queue_ticket ask gives_up stamp before in
    let (outcome, ledger) = wait os ask ticket gives_up looks queued in
    (outcome, drop_ticket ticket ledger)

-- The body and the exit of a `hold` that entered.
unfoldable pub run_body : (ℕ → Ledger → Ledger) → Waited × Ledger → Waited × Ledger
unfolding leave
run_body body (ended (ok claim), ledger) = (ended (ok claim), leave claim.id (body claim.id ledger))
run_body body (ended (err raised), ledger) = (ended (err raised), ledger)
run_body body (waiting, ledger) = (waiting, ledger)

-- The rest of a `hold` after its checks.
unfoldable pub attend :
    String
    → Request
    → Asker
    → List Look
    → (ℕ → Ledger → Ledger)
    → Ledger
    → Option Ask
    → Held × Ledger
unfolding enter run_body
attend os request asker looks body before none = (enclosed, body 0 before)
attend os request asker looks body before (some ask) =
    let gives_up = asker.now + seconds request.queue_s in
    let (w, ledger) = run_body body (enter os ask gives_up asker.stamp looks before) in
    (finished w, ledger)

-- `with hold(...) as claim: body`: `body` takes the claim's id, which is 0 under an enclosing claim.
unfoldable pub hold :
    String → Request → Asker → List Look → (ℕ → Ledger → Ledger) → Ledger → Result (Held × Ledger)
unfolding prepare attend
hold os request asker looks body before = do
  asked ← prepare request asker
  ok (attend os request asker looks body before asked)

-- `take(...)`
unfoldable pub take : String → Request → Asker → List Look → Ledger → Result (Held × Ledger)
unfolding hold keep_claim
take os request asker looks before =
    hold os (record request { queue_s = pos 0; fingerprint = none; outside = false }) asker looks
      keep_claim before
