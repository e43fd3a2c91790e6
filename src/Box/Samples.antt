-- ===== src/Box/Samples.antt =====
-- A machine of eight cores with one claim, two rows of a ledger, and the theorems of the box applied to it.
use lab_commons.Commons.{
  All, ◌==◌, Option, Bool, ℕ, ◌*◌, ◌-◌, ◌≤◌, ◌<◌, ◌≡◌, refl, true, false, none, some, [], ◌∷◌, ◌⊎◌,
  ok, sum_of,
}
use lab_commons.Commons.Int.{pos}
use lab_commons.Commons.Dict.{Dict}
use lab_commons.Compute.Resources.{whole, amount, of_amounts, sub, total}
use lab_commons.Box.Demand.{cpu_name, mem_name, Capacity, Holding, checked}
use lab_commons.Box.Room.{Reading, owed_cpu, owed_memory}
use lab_commons.Box.Order.{fits, fits_at, earliest}
use lab_commons.Box.Ledger.{ClaimRow, Ledger, reap}
use lab_commons.Box.Reap.{IsCurrent, reap-IsCurrent}
use lab_commons.Box.Measure.{SeatsNoShare}
use lab_commons.Box.Bounds.{fits_within}
use lab_commons.Box.Starts.{earliest-some, ends_at}

abbrev pub machine : Capacity
machine = record {
  cpu = 8 * whole;
  memory = 16 * whole;
  seats = ("jmag", 1) ∷ [];
  kept_cpu = 1 * whole;
  kept_bytes = 1 * whole;
  watched = [];
  blind = [];
}

-- Six cores until the moment 100; nothing of it runs yet.
abbrev pub claim : Holding
claim = record {
  what = "pytest";
  pid = 7;
  cpu = 6;
  memory = 4 * whole;
  seats = ("jmag", 1) ∷ [];
  deadline = 100;
  id = 1;
  key = "k";
  probe = none;
  kept = false;
}

abbrev pub idle : Reading
idle = record {
  cores = 8;
  idle_cores = 8 * whole;
  total_bytes = 16 * whole;
  available_bytes = 15 * whole;
  usage = [];
  seats_in_use = [];
  unseen = [];
}

abbrev pub one_core : Dict ℕ
one_core = ("cpu", 1 * whole) ∷ ("mem_gb", 1 * whole) ∷ []

abbrev three_cores : Dict ℕ
three_cores = ("cpu", 3 * whole) ∷ ("mem_gb", 1 * whole) ∷ []

abbrev too_many : Dict ℕ
too_many = ("cpu", 9 * whole) ∷ ("mem_gb", 1 * whole) ∷ []

one_core-fits : fits "linux" machine (claim ∷ []) idle one_core ≡ true
unfolding fits sub total
one_core-fits = refl

seats_no_share : SeatsNoShare "linux" machine (claim ∷ [])
seats_no_share = record {
  capacity_cpu = refl;
  capacity_mem = refl;
  held_cpu = refl;
  held_mem = refl;
  os_cpu = refl;
  os_mem = refl;
}

fits_within_example :
    (amount cpu_name (of_amounts one_core) ≤ machine.cpu - sum_of (λ h. h.cpu * whole) (claim ∷ []))
    × (amount cpu_name (of_amounts one_core)
        ≤ idle.idle_cores - machine.kept_cpu - sum_of (owed_cpu idle) (claim ∷ []))
    × (amount mem_name (of_amounts one_core) ≤ machine.memory - sum_of (λ h. h.memory) (claim ∷ []))
    × (amount mem_name (of_amounts one_core)
        ≤ idle.available_bytes - machine.kept_bytes - sum_of (owed_memory idle) (claim ∷ []))
fits_within_example =
    fits_within "linux" machine (claim ∷ []) idle seats_no_share one_core one_core-fits

starts_after_claim : earliest "linux" machine (claim ∷ []) idle three_cores 5 ≡ some 100
unfolding earliest sub total
starts_after_claim = refl

never_starts : earliest "linux" machine (claim ∷ []) idle too_many 5 ≡ none
unfolding earliest sub total
never_starts = refl

earliest-some_example :
    (fits "linux" machine (claim ∷ []) idle three_cores ≡ true) × (◌≡◌ {A = ℕ} 100 5)
    ⊎ (fits "linux" machine (claim ∷ []) idle three_cores ≡ false)
      × (ends_at 100 (claim ∷ []) ≡ true)
      × (fits_at "linux" machine (claim ∷ []) idle three_cores 100 ≡ true)
      × ((n : ℕ)
          → ends_at n (claim ∷ []) ≡ true
          → n < 100
          → fits_at "linux" machine (claim ∷ []) idle three_cores n ≡ false)
earliest-some_example =
    earliest-some "linux" machine (claim ∷ []) idle three_cores 5 100 starts_after_claim

passes :
    checked (("cpu", pos (1 * whole)) ∷ ("mem_gb", pos (1 * whole)) ∷ []) (pos 60) ≡ ok one_core
unfolding checked
passes = refl

-- A claim whose process runs, and an external job past its client.
abbrev pub running_row : ClaimRow
running_row = record {
  id = 1;
  pid = 7;
  created = some 3;
  cpu = 2;
  memory = whole;
  seats = [];
  deadline = 500;
  started = 100;
  what = "pytest";
  key = "k";
  kept = false;
  probe = none;
  fingerprint = none;
}

abbrev pub external_row : ClaimRow
external_row = record running_row { id = 2; pid = 8; kept = true; probe = some ("squeue" ∷ []) }

abbrev pub two_rows : Ledger
two_rows = record {
  claims = running_row ∷ external_row ∷ [];
  tickets = [];
  next_id = 3;
  next_ticket = 1;
}

abbrev pub one_row : Ledger
one_row = record { claims = running_row ∷ []; tickets = []; next_id = 3; next_ticket = 1 }

abbrev pub only_seven : ℕ → Option ℕ → Bool
only_seven pid created = pid == 7

external_gone : (reap only_seven (λ probe. false) 200 two_rows).claims ≡ running_row ∷ []
unfolding reap
external_gone = refl

reap-IsCurrent_example :
    All
      (IsCurrent only_seven (λ probe. true) 200)
      (reap only_seven (λ probe. true) 200 two_rows).claims
reap-IsCurrent_example = reap-IsCurrent only_seven (λ probe. true) 200 two_rows
