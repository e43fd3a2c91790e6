-- ===== src/Engine/Store.antt =====
-- The rows of src/lab_commons/resources/engine.py in the ledger file: the claims of any scope and the
-- charges, with `charged`, `_vector`, `_row`, `_held` and `Engine.reap`. The process table and the probes
-- are arguments.
use lab_commons.Commons.{
  ℕ, ◌+◌, ◌/◌, String, Bool, not, ◌&&◌, Option, none, List, [], ◌∷◌, map, keep, leb, str_eq, sum_of,
}
use lab_commons.Commons.Dict.{Dict, insert}
use lab_commons.Compute.Resources.{Resources, whole, amount, of_amounts}
use lab_commons.Box.Demand.{cpu_name, mem_name, is_share}
use lab_commons.Box.Room.{merge}
use lab_commons.Box.Ledger.{ClaimRow, is_possible, is_dead, keeps_claim}
use lab_commons.Engine.Kinds.{Kind}

-- A row of `claims` as the engine writes it: `cpu` is any amount of cores, `rest` every other name's.
pub record EngineRow : Type 0 where
  pub id : ℕ
  pub pid : ℕ
  pub created : Option ℕ
  pub cpu : ℕ
  pub memory : ℕ
  pub rest : Dict ℕ
  pub deadline : ℕ
  pub started : ℕ
  pub what : String
  pub key : String
  pub kept : Bool
  pub probe : Option (List String)
  pub scope : String
  pub kind : Kind
  pub window : Option String

pub record ChargeRow : Type 0 where
  pub scope : String
  pub name : String
  pub amount : ℕ
  pub at : ℕ
  pub window_s : ℕ
  pub what : String

pub record Store : Type 0 where
  pub rows : List EngineRow
  pub charges : List ChargeRow
  pub next_id : ℕ

-- The columns of a row that the ledger's reap reads.
abbrev pub as_claim : EngineRow → ClaimRow
as_claim r = record {
  id = r.id;
  pid = r.pid;
  created = r.created;
  cpu = r.cpu / whole;
  memory = r.memory;
  seats = r.rest;
  deadline = r.deadline;
  started = r.started;
  what = r.what;
  key = r.key;
  kept = r.kept;
  probe = r.probe;
  fingerprint = none;
}

-- `_row(demand)`: cores, bytes and every other name.
unfoldable pub row_columns : Dict ℕ → ℕ × ℕ × Dict ℕ
unfolding amount
row_columns demand =
    (amount cpu_name demand, amount mem_name demand, keep (λ i. not (is_share i.0)) demand)

-- `_vector(cpu, mem, rest)`
unfoldable pub row_vector : ℕ → ℕ → Dict ℕ → Resources
unfolding of_amounts insert
row_vector cpu memory rest = of_amounts (merge ((cpu_name, cpu) ∷ (mem_name, memory) ∷ []) rest)

abbrev pub vector_of_row : EngineRow → Resources
vector_of_row r = row_vector r.cpu r.memory r.rest

-- `_held(con, scope)`
unfoldable pub held_on : String → Store → List Resources
unfolding row_vector
held_on scope store = map vector_of_row (keep (λ (r : EngineRow). str_eq r.scope scope) store.rows)

-- A charge of the name on the scope that still counts.
abbrev pub counts : String → String → ℕ → ChargeRow → Bool
counts scope name now c = str_eq c.scope scope && str_eq c.name name && leb now (c.at + c.window_s)

-- `charged(scope, name, now=now)`
unfoldable pub charged : String → String → ℕ → Store → ℕ
charged scope name now store =
    sum_of (λ (c : ChargeRow). c.amount) (keep (counts scope name now) store.charges)

module _ (same_process : ℕ → Option ℕ → Bool) (answers : List String → Bool) where
  abbrev found_dead : ℕ → List EngineRow → List ℕ
  found_dead now rows =
      map (λ (r : EngineRow). r.id)
        (keep (λ (r : EngineRow). is_dead same_process answers now (as_claim r)) rows)

  abbrev pub stays_row : ℕ → List ℕ → EngineRow → Bool
  stays_row now dead r = keeps_claim same_process answers now dead (as_claim r)

  -- `Engine.reap(now=now)`: the ledger's reap of the claims, then each charge past its window.
  unfoldable pub reap_store : ℕ → Store → Store
  reap_store now store = record store {
    rows =
        keep (stays_row now (found_dead now store.rows))
          (keep (λ (r : EngineRow). is_possible now (as_claim r)) store.rows);
    charges = keep (λ (c : ChargeRow). leb now (c.at + c.window_s)) store.charges;
  }
