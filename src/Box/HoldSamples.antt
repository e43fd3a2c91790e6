-- ===== src/Box/HoldSamples.antt =====
-- A `hold`, a `take` and an external claim on the machine of Box/Samples.antt, and their theorems.
use lab_commons.Commons.{◌*◌, ◌≡◌, refl, true, false, none, some, [], ◌∷◌, any, ok}
use lab_commons.Commons.Int.{pos}
use lab_commons.Compute.Resources.{whole, sub, total}
use lab_commons.Box.Ledger.{ClaimRow, Ledger}
use lab_commons.Box.Queue.{claim_row}
use lab_commons.Box.Wait.{Waited}
use lab_commons.Box.Hold.{Request, Asker, Held, hold, take}
use lab_commons.Box.HoldKept.{is_kept_row, take-keeps}
use lab_commons.Box.Samples.{machine, one_row, running_row}
use lab_commons.Box.QueueSamples.{sight, ask, first_look, granted_claim}

abbrev request : Request
request = record {
  demand = ("cpu", pos (1 * whole)) ∷ ("mem_gb", pos (1 * whole)) ∷ [];
  wall_s = pos 60;
  what = "figures";
  queue_s = pos 0;
  capacity = machine;
  key = "figures";
  fingerprint = none;
  outside = false;
}

abbrev asker : Asker
asker = record { pid = 9; inside = false; now = 199; stamp = some 4 }

abbrev own_row : ClaimRow
own_row = claim_row ask sight 3

abbrev after_take : Ledger
after_take = record one_row {
  claims = running_row ∷ record own_row { kept = true } ∷ [];
  next_id = 4;
  next_ticket = 2;
}

takes :
    take "linux" request asker (first_look ∷ []) one_row
    ≡ ok (Held.finished (Waited.ended (ok granted_claim)), after_take)
unfolding take sub total
takes = refl

take-keeps_example : any (is_kept_row 3) after_take.claims ≡ true
take-keeps_example =
    take-keeps "linux" request asker (first_look ∷ []) one_row after_take granted_claim takes

abbrev after_hold : Ledger
after_hold = record one_row { next_id = 4; next_ticket = 2 }

holds :
    hold "linux" request asker (first_look ∷ []) (λ n ledger. ledger) one_row
    ≡ ok (Held.finished (Waited.ended (ok granted_claim)), after_hold)
unfolding hold sub total
holds = refl

abbrev after_external : Ledger
after_external = record after_take {
  claims = running_row ∷ record own_row { kept = true; probe = some ("squeue" ∷ []) } ∷ [];
}
