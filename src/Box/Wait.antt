-- ===== src/Box/Wait.antt =====
-- src/lab_commons/box/ledger.py: `_wait`. What other processes do between the transactions of a waiter is
-- a function of the ledger in each of its looks; the warning of a stuck ticket is text. `os` is the name
-- of this platform's OS.
use lab_commons.Commons.{
  ℕ, String, Bool, true, false, not, ◌||◌, Option, List, [], ◌∷◌, map, leb, ◌==◌, if◌then◌else◌,
  Result, ok, err, Error,
}
use lab_commons.Compute.Resources.{Resources}
use lab_commons.Box.Demand.{cores, mem_bytes}
use lab_commons.Box.Room.{Reading}
use lab_commons.Box.Ledger.{ClaimRow, Ledger, dead_externals}
use lab_commons.Box.Queue.{Claim, Ask, Sight, Outcome, admitted, no_room, behind, try_ticket}

-- One turn of a waiter: what others did before it, the reader, the process table and the probes at
-- `asked_at`, what others did until the lock, and then the process table, the time, the waiter's stamp
-- and the time after.
pub record Look : Type 0 where
  pub others : Ledger → Ledger
  pub read : List ℕ → Reading
  pub ran : ℕ → Option ℕ → Bool
  pub answers : List String → Bool
  pub asked_at : ℕ
  pub meanwhile : Ledger → Ledger
  pub runs : ℕ → Option ℕ → Bool
  pub now : ℕ
  pub stamp : Option ℕ
  pub after : ℕ

-- A wait that ended, or one whose looks ran out before it did.
pub data Waited : Type 0 where
  ended : Result Claim → Waited
  waiting : Waited

-- `_NO_SHARE`
abbrev pub no_share : Reading
no_share = record {
  cores = 0;
  idle_cores = 0;
  total_bytes = 0;
  available_bytes = 0;
  usage = [];
  seats_in_use = [];
  unseen = [];
}

abbrev pub takes_share : Resources → Bool
takes_share demand = not (cores demand == 0) || not (mem_bytes demand == 0)

-- The reading that a look decides on.
abbrev pub reading_of : Ask → Look → Ledger → Reading
reading_of ask look ledger =
    if takes_share ask.demand
    then look.read (map (λ (r : ClaimRow). r.pid) ledger.claims)
    else no_share

-- What the transaction of a look sees.
abbrev pub sight_of : Ask → Look → Ledger → Sight
sight_of ask look ledger = record {
  now = look.now;
  reading = reading_of ask look ledger;
  same_process = look.runs;
  dead = dead_externals look.ran look.answers look.asked_at ledger;
  stamp = look.stamp;
}

-- What follows a look: `late` is whether its time is up, `rest` the looks after it.
abbrev pub go_on :
    Result (Outcome × Ledger) → Bool → (Ledger → Waited × Ledger) → Ledger → Waited × Ledger
go_on (err raised) late rest before = (ended (err raised), before)
go_on (ok (admitted claim, ledger)) late rest before = (ended (ok claim), ledger)
go_on (ok (no_room verdict, ledger)) true rest before = (ended (err Error.not_admitted), ledger)
go_on (ok (no_room verdict, ledger)) false rest before = rest ledger
go_on (ok (behind, ledger)) true rest before = (ended (err Error.not_admitted), ledger)
go_on (ok (behind, ledger)) false rest before = rest ledger

module _ (os : String) (ask : Ask) (ticket gives_up : ℕ) where
  -- One turn of the loop of `_wait`, up to its test of the time, on the ledger that the turn begins with.
  unfoldable pub look_once : Look → Ledger → Result (Outcome × Ledger)
  unfolding dead_externals try_ticket cores mem_bytes
  look_once look ledger =
      try_ticket os ask (sight_of ask look ledger) ticket (look.meanwhile ledger)

  -- `_wait(con, ticket, ...)`, as far as the looks go; a look that raises is rolled back.
  unfoldable pub wait : List Look → Ledger → Waited × Ledger
  unfolding look_once
  wait [] ledger = (waiting, ledger)
  wait (look ∷ looks) before =
      go_on (look_once look (look.others before)) (leb gives_up look.after)
        (λ ledger. wait looks ledger) (look.meanwhile (look.others before))
