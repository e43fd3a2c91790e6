-- ===== src/Engine/Samples.antt =====
-- A scope with one provider and one run on it, and the theorems of the engine at it.
use lab_commons.Commons.{
  ℕ, ◌+◌, ◌*◌, ◌≤◌, String, ◌≡◌, refl, Bool, true, false, Option, none, some, List, [], ◌∷◌, any,
  Result, ok,
}
use lab_commons.Commons.Dict.{Dict}
use lab_commons.Compute.Resources.{whole, amount, sub, total}
use lab_commons.Compute.Admission.{Supply}
use lab_commons.Engine.Kinds.{Kind, EngineClaim, kind_of}
use lab_commons.Engine.Store.{EngineRow, ChargeRow, Store, charged, reap_store}
use lab_commons.Engine.Holds.{
  Holder, EngineHeld, Providers, supply, hold_claim, charge, is_returned,
}
use lab_commons.Engine.Within.{held_amount, hold_claim-within}
use lab_commons.Engine.Charges.{charge-charged}

abbrev measured : Supply
measured = record {
  scope = "ws1";
  resources = ("cpu", 8 * whole) ∷ ("tokens", 90 * whole) ∷ [];
  listed = [];
}

abbrev providers : Providers
providers = ("ws1", record { names = "cpu" ∷ "tokens" ∷ []; measure = λ scope. measured } ∷ []) ∷ []

abbrev claim : EngineClaim
claim = record {
  demand = ("cpu", 2 * whole) ∷ ("tokens", 50 * whole) ∷ [];
  wall_s = 60;
  what = "draft";
  key = "draft";
}

abbrev holder : Holder
holder = record { pid = 9; created = none; now = 100 }

abbrev spent : ChargeRow
spent = record {
  scope = "ws1";
  name = "tokens";
  amount = 10 * whole;
  at = 50;
  window_s = 86400;
  what = "draft";
}

abbrev store : Store
store = record { rows = []; charges = spent ∷ record spent { window_s = 20 } ∷ []; next_id = 1 }

abbrev row : EngineRow
row = record {
  id = 1;
  pid = 9;
  created = none;
  cpu = 2 * whole;
  memory = 0;
  rest = [];
  deadline = 160;
  started = 100;
  what = "draft";
  key = "draft";
  kept = false;
  probe = none;
  scope = "ws1";
  kind = Kind.occupancy;
  window = none;
}

abbrev token_row : EngineRow
token_row = record row {
  id = 2;
  cpu = 0;
  rest = ("tokens", 50 * whole) ∷ [];
  kind = Kind.consumable;
  window = some "1d";
}

abbrev after : Store
after = record { rows = row ∷ token_row ∷ []; charges = spent ∷ []; next_id = 3 }

abbrev held : EngineHeld
held = record {
  scope = "ws1";
  claim = claim;
  rows = (Kind.occupancy, 1) ∷ (Kind.consumable, 2) ∷ [];
}

abbrev no_tool : String → Bool
no_tool name = false

abbrev a_day : String → Result (String × ℕ)
a_day name = ok ("1d", 86400)

abbrev runs : ℕ → Option ℕ → Bool
runs pid created = true

abbrev answers : List String → Bool
answers probe = true

supplies : supply providers "ws1" ≡ ok (record measured { listed = "cpu" ∷ "tokens" ∷ [] })
unfolding supply total
supplies = refl

holds_claim :
    hold_claim no_tool a_day providers "ws1" claim [] holder 100 runs answers (λ s. s) store
    ≡ ok (held, after)
unfolding hold_claim sub total
holds_claim = refl

hold_claim-within_example :
    (held_amount "tokens" "ws1" after
      ≡ held_amount "tokens" "ws1" (reap_store runs answers 100 store)
        + amount "tokens" claim.demand)
    × (1 ≤ amount "tokens" claim.demand
        → held_amount "tokens" "ws1" after ≤ amount "tokens" measured.resources)
hold_claim-within_example =
    hold_claim-within no_tool a_day providers "ws1" claim [] holder 100 runs answers (λ s. s) store
      after held (record measured { listed = "cpu" ∷ "tokens" ∷ [] }) (refl, (refl, tt)) supplies
      holds_claim "tokens"

abbrev used : Dict ℕ
used = ("tokens", 20 * whole) ∷ []

abbrev at_end : Store
at_end = record after {
  rows = [];
  charges = spent ∷ record spent { amount = 20 * whole; at = 150 } ∷ [];
}

charges_tokens : charge no_tool a_day held used 150 after ≡ ok at_end
unfolding charge
charges_tokens = refl

tokens_consumable : kind_of no_tool "tokens" ≡ ok Kind.consumable
unfolding kind_of
tokens_consumable = refl

charge-charged_example :
    (charged "ws1" "tokens" 150 at_end ≡ charged "ws1" "tokens" 150 after + amount "tokens" used)
    × (any (is_returned held.rows) at_end.rows ≡ false)
charge-charged_example =
    charge-charged no_tool a_day held used 150 after at_end "tokens" (refl, (refl, tt)) refl
      tokens_consumable charges_tokens
