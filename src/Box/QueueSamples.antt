-- ===== src/Box/QueueSamples.antt =====
-- A queue of two waiters on the machine of Box/Samples.antt, and the theorems of the ledger's queue at it.
use lab_commons.Commons.{
  ℕ, ◌≤◌, ◌==◌, ◌≡◌, refl, Bool, true, false, not, Option, none, some, [], ◌∷◌, ◌++◌, all, arith,
  All, ok, inl,
}
use lab_commons.Compute.Resources.{whole, sub, total}
use lab_commons.Box.Demand.{Holding}
use lab_commons.Box.Order.{vector, earliest, contends}
use lab_commons.Box.Ledger.{TicketRow, Ledger, release}
use lab_commons.Box.Queue.{
  Claim, Ask, Sight, admitted, read_rows, jumper_of, asked_of, claim_row, try_ticket,
}
use lab_commons.Box.Wait.{Look, wait}
use lab_commons.Box.Pool.{IsPlain}
use lab_commons.Box.PoolSteps.{PlainBox, looked, owns_none}
use lab_commons.Box.LedgerSteps.{LedgerStep}
use lab_commons.Box.PoolRefines.{Within, Reaches, Reaches-Within}
use lab_commons.Box.Slots.{looking, slots, SlotStep, LedgerMove}
use lab_commons.Box.SlotsRefine.{move-refines}
use lab_commons.Box.HoldLaws.{has_ended, wait-ends}
use lab_commons.Box.QueueLaws.{Among, admits-delays_none}
use lab_commons.Box.Samples.{machine, idle, one_core, one_row, running_row}

abbrev pub ask : Ask
ask = record {
  pid = 9;
  capacity = machine;
  demand = one_core;
  wall_s = 60;
  what = "figures";
  key = "figures";
  fingerprint = none;
}

abbrev seven_or_nine : ℕ → Option ℕ → Bool
seven_or_nine pid created = elim (pid == 7) [ true ↦ true | false ↦ pid == 9 ]

abbrev pub sight : Sight
sight = record {
  now = 200;
  reading = idle;
  same_process = seven_or_nine;
  dead = [];
  stamp = some 4;
}

-- An earlier ticket that asks for the whole machine, and the asker's own.
abbrev big_ticket : TicketRow
big_ticket = record {
  id = 1;
  pid = 7;
  created = some 3;
  gives_up = 900;
  what = "solve";
  cpu = some 7;
  memory = some whole;
  seats = some [];
}

abbrev own_ticket : TicketRow
own_ticket = record big_ticket { id = 2; pid = 9; created = some 4; what = "figures"; cpu = some 1 }

abbrev queued : Ledger
queued = record one_row { tickets = big_ticket ∷ own_ticket ∷ []; next_ticket = 3 }

abbrev entered : Ledger
entered = record queued {
  claims = running_row ∷ claim_row ask sight 3 ∷ [];
  tickets = big_ticket ∷ [];
  next_id = 4;
}

abbrev pub granted_claim : Claim
granted_claim = record { id = 3; deadline = 260 }

plain_box : PlainBox "linux" machine
plain_box = record { capacity_cpu = refl; capacity_mem = refl; os_cpu = refl; os_mem = refl }

ask_enters : try_ticket "linux" ask sight 2 queued ≡ ok (admitted granted_claim, entered)
unfolding try_ticket sub total
ask_enters = refl

IsPlain-rows : All IsPlain queued.claims
IsPlain-rows = (record { no_cpu = refl; no_mem = refl }, tt)

alone : all (λ (h : Holding). not (h.pid == 9)) (read_rows (looked sight queued)) ≡ true
unfolding try_ticket
alone = refl

owns_no_claim : owns_none (some 9) (read_rows (looked sight queued)) ≡ true
unfolding try_ticket
owns_no_claim = refl

looks_step : LedgerStep "linux" machine queued entered
looks_step = LedgerStep.looks ask sight 2 (admitted granted_claim) refl owns_no_claim ask_enters

move-refines_example : SlotStep machine (looking 9) (slots queued) (slots entered)
move-refines_example =
    move-refines "linux" machine plain_box
      (LedgerMove.looks ask sight 2 (admitted granted_claim) refl ask_enters) IsPlain-rows

queued-Within : Within "linux" machine plain_box queued
queued-Within = record {
  plain_rows = IsPlain-rows;
  cpu_within = omega arith;
  memory_within = omega arith;
}

Reaches-Within_example : Within "linux" machine plain_box (release 1 entered)
Reaches-Within_example =
    Reaches-Within "linux" machine plain_box
      (Reaches.then_step (Reaches.then_step Reaches.here looks_step) (LedgerStep.releases 1))
      queued-Within

stands_first : Among big_ticket (looked sight queued).tickets
unfolding try_ticket
stands_first = inl refl

contended : contends (jumper_of ask 200) (asked_of big_ticket) ≡ true
unfolding try_ticket
contended = refl

starts_later :
    earliest "linux" machine (read_rows (looked sight queued)) idle (vector 7 whole []) 200
    ≡ some 500
unfolding try_ticket sub total
starts_later = refl

admits-delays_none_example :
    (beside : ℕ) × (earliest "linux" machine
        (read_rows (looked sight queued) ++ jumper_of ask 200 ∷ [])
        idle
        (vector 7 whole [])
        200
      ≡ some beside)
    × (beside ≤ 500)
admits-delays_none_example =
    admits-delays_none "linux" ask sight 2 queued entered granted_claim big_ticket 7 whole [] 500
      ask_enters alone stands_first (omega arith) refl contended starts_later

-- Another process ends its claim while the waiter sleeps.
abbrev pub first_look : Look
first_look = record {
  others = λ ledger. ledger;
  read = λ pids. idle;
  ran = seven_or_nine;
  answers = λ probe. true;
  asked_at = 200;
  meanwhile = λ ledger. ledger;
  runs = seven_or_nine;
  now = 200;
  stamp = some 4;
  after = 210;
}

abbrev last_look : Look
last_look = record first_look { others = release 1; now = 300; after = 310 }

wait-ends_example : has_ended (wait "linux" ask 2 310 (first_look ∷ last_look ∷ []) queued).0 ≡ true
wait-ends_example = wait-ends "linux" ask 2 310 (first_look ∷ last_look ∷ []) queued refl
