-- ===== src/Engine/Holds.antt =====
-- `Engine` of src/lab_commons/resources/engine.py over its store: what a scope supplies and has free, and
-- what is held and charged. A name's window (`window_s` of the machine file) is an argument, its text and
-- its seconds; so are the tools (Engine/Kinds.antt).
use lab_commons.Commons.{
  ℕ, ◌+◌, String, Bool, true, false, not, ◌&&◌, Option, none, some, List, [], ◌∷◌, ◌++◌, map, keep,
  any, all, ltb, ◌==◌, length, str_eq, if◌then◌else◌, Result, ok, err, Error, ◌>>=◌, ◌>>◌, guard,
}
use lab_commons.Commons.Dict.{Dict, lookup, insert, elem, keys}
use lab_commons.Compute.Resources.{Resources, amount, of_amounts, tabulate, union, sub, total}
use lab_commons.Compute.Admission.{Supply, Admission, present, admits}
use lab_commons.Engine.Kinds.{Kind, EngineClaim, Provider, kind_of}
use lab_commons.Engine.Store.{EngineRow, ChargeRow, Store, row_columns, held_on, reap_store}

abbrev pub same_kind : Kind → Kind → Bool
same_kind Kind.occupancy Kind.occupancy = true
same_kind Kind.consumable Kind.consumable = true
same_kind Kind.persistent Kind.persistent = true
same_kind _ _ = false

abbrev pub same_window : Option String → Option String → Bool
same_window none none = true
same_window (some a) (some b) = str_eq a b
same_window _ _ = false

-- The part of a demand of one kind and one window.
pub record Part : Type 0 where
  pub kind : Kind
  pub window : Option String
  pub demand : Dict ℕ

-- What the asking process adds to its rows: its id and stamp, and the time.
pub record Holder : Type 0 where
  pub pid : ℕ
  pub created : Option ℕ
  pub now : ℕ

-- A claim that is held: its row per kind.
pub record EngineHeld : Type 0 where
  pub scope : String
  pub claim : EngineClaim
  pub rows : List (Kind × ℕ)

-- `parts.setdefault((kind, window), {})[name] = amount`
unfoldable pub put_part : Kind → Option String → String → ℕ → List Part → List Part
unfolding insert
put_part kind window name n [] =
    record { kind = kind; window = window; demand = (name, n) ∷ [] } ∷ []
put_part kind window name n (p ∷ parts) =
    let rest = put_part kind window name n parts in
    if same_kind p.kind kind && same_window p.window window
    then record p { demand = insert name n p.demand } ∷ parts
    else p ∷ rest

-- No two parts of one kind.
unfoldable pub has_distinct_kinds : List Part → Bool
has_distinct_kinds [] = true
has_distinct_kinds (p ∷ parts) =
    all (λ (q : Part). not (same_kind p.kind q.kind)) parts && has_distinct_kinds parts

abbrev pub row_of_part : String → EngineClaim → List String → Holder → ℕ → Part → EngineRow
row_of_part scope claim probe holder n p =
    let columns = row_columns p.demand in
    record {
      id = n;
      pid = holder.pid;
      created = holder.created;
      cpu = columns.0;
      memory = columns.1;
      rest = columns.2;
      deadline = holder.now + claim.wall_s;
      started = holder.now;
      what = claim.what;
      key = claim.key;
      kept = same_kind p.kind Kind.persistent;
      probe = if same_kind p.kind Kind.persistent then some probe else none;
      scope = scope;
      kind = p.kind;
      window = p.window;
    }

-- The inserts of the parts' rows, from the id that comes next.
unfoldable pub rows_of_parts :
    String → EngineClaim → List String → Holder → ℕ → List Part → List EngineRow
unfolding row_columns
rows_of_parts scope claim probe holder n [] = []
rows_of_parts scope claim probe holder n (p ∷ parts) =
    row_of_part scope claim probe holder n p ∷ rows_of_parts scope claim probe holder (n + 1) parts

abbrev pub Providers : Type 0
Providers = Dict (List Provider)

module _ (is_tool : String → Bool) where
  abbrev has_kind : String → Bool
  has_kind name = elim (kind_of is_tool name) [ ok kind ↦ true | err raised ↦ false ]

  -- The providers of one scope: every name has a kind, and no provider before it has it.
  unfoldable pub are_apart : List String → List Provider → Bool
  unfolding kind_of
  are_apart seen [] = true
  are_apart seen (plug ∷ plugs) =
      all has_kind plug.names
      && (all (λ name. not (elem name seen)) plug.names && are_apart (union seen plug.names) plugs)

  -- `Engine(providers)`
  unfoldable pub make_engine : Providers → Result Providers
  unfolding are_apart
  make_engine providers = do
    guard (all (λ i. are_apart [] i.1) providers) Error.value_error
    ok providers

-- `self._plugs(scope)`
unfoldable pub plugs_of : Providers → String → Result (List Provider)
unfolding lookup
plugs_of providers scope = elim (lookup scope providers) [
  | none ↦ err Error.value_error
  | some plugs ↦ ok plugs
]

abbrev pub own_measure : String → Provider → Resources
own_measure scope plug =
    of_amounts (tabulate (λ name. amount name (plug.measure scope).resources) plug.names)

abbrev pub names_listed : String → List Provider → List String
names_listed scope [] = []
names_listed scope (plug ∷ plugs) = union (present (plug.measure scope)) (names_listed scope plugs)

-- `supply(scope)`
unfoldable pub supply : Providers → String → Result Supply
unfolding plugs_of of_amounts amount total present
supply providers scope = do
  plugs ← plugs_of providers scope
  ok (record {
    scope = scope;
    resources = total (map (own_measure scope) plugs);
    listed = names_listed scope plugs;
  })

-- `available(scope)`
unfoldable pub available : Providers → String → Store → Result Supply
unfolding supply sub total held_on present
available providers scope store = do
  measured ← supply providers scope
  ok (record {
    scope = scope;
    resources = sub measured.resources (total (held_on scope store));
    listed = present measured;
  })

-- `self._admit(con, measured, claim)`
unfoldable pub admit_on : Supply → EngineClaim → Store → Admission
unfolding admits present held_on
admit_on measured claim store =
    admits measured.resources claim.demand (present measured) [] (held_on measured.scope store)
      claim.what

-- `claimable(scope, claim)`
unfoldable pub claimable : Providers → String → EngineClaim → Store → Result Admission
unfolding supply admit_on
claimable providers scope claim store = do
  measured ← supply providers scope
  ok (admit_on measured claim store)

-- `self._hold(scope, claim, probe)`, between the reap and the commit on the store that the reap left.
unfoldable pub hold_parts :
    Supply → EngineClaim → List String → Holder → List Part → Store → Result (EngineHeld × Store)
unfolding admit_on rows_of_parts
hold_parts measured claim probe holder parts store =
    let rows = rows_of_parts measured.scope claim probe holder store.next_id parts in
    guard (admit_on measured claim store).admitted Error.not_admitted
    >> ok (
      record {
        scope = measured.scope;
        claim = claim;
        rows = map (λ (r : EngineRow). (r.kind, r.id)) rows;
      },
      record store { rows = store.rows ++ rows; next_id = store.next_id + length rows },
    )

abbrev pub is_returned : List (Kind × ℕ) → EngineRow → Bool
is_returned rows r = any (λ i. not (same_kind i.0 Kind.persistent) && i.1 == r.id) rows

module _ (is_tool : String → Bool) (window_of : String → Result (String × ℕ)) where
  abbrev pub window_for : Kind → String → Result (Option String)
  window_for Kind.consumable name = window_of name >>= λ w. ok (some w.0)
  window_for kind name = ok none

  -- The loop that groups a demand by kind and window.
  unfoldable pub parts_into : List Part → Dict ℕ → Result (List Part)
  unfolding kind_of put_part
  parts_into parts [] = ok parts
  parts_into parts ((name, n) ∷ demand) = do
    kind ← kind_of is_tool name
    window ← window_for kind name
    parts_into (put_part kind window name n parts) demand

  -- `self._hold(scope, claim, probe)`, with the time, the process table and the probes of its reap, and what others
  -- did between that and the lock.
  unfoldable pub hold_claim :
      Providers
      → String
      → EngineClaim
      → List String
      → Holder
      → ℕ
      → (ℕ → Option ℕ → Bool)
      → (List String → Bool)
      → (Store → Store)
      → Store
      → Result (EngineHeld × Store)
  unfolding parts_into has_distinct_kinds reap_store supply hold_parts
  hold_claim providers scope claim probe holder reaped_at same_process answers meanwhile before = do
    parts ← parts_into [] claim.demand
    guard (has_distinct_kinds parts) Error.value_error
    let reaped = reap_store same_process answers reaped_at before
    measured ← supply providers scope
    hold_parts measured claim probe holder parts (meanwhile reaped)

  -- The charges of one name of the demand.
  abbrev pub charge_of : String → String → ℕ → Dict ℕ → String → Result (List ChargeRow)
  charge_of scope what now used name = kind_of is_tool name >>= λ kind.
      if same_kind kind Kind.consumable && ltb 0 (amount name used)
      then (window_of name >>= λ w. ok (
          record {
            scope = scope;
            name = name;
            amount = amount name used;
            at = now;
            window_s = w.1;
            what = what;
          }
          ∷ []))
      else ok []

  -- The inserts of `charge`, name by name.
  unfoldable pub charges_of : String → String → ℕ → Dict ℕ → List String → Result (List ChargeRow)
  unfolding kind_of amount
  charges_of scope what now used [] = ok []
  charges_of scope what now used (name ∷ names) = do
    here ← charge_of scope what now used name
    rest ← charges_of scope what now used names
    ok (here ++ rest)

  -- `charge(held, used)`, its transaction: an error rolls it back.
  unfoldable pub charge : EngineHeld → Dict ℕ → ℕ → Store → Result Store
  unfolding charges_of
  charge held used now store = do
    charges ← charges_of held.scope held.claim.what now used (keys held.claim.demand)
    ok (record store {
      rows = keep (λ (r : EngineRow). not (is_returned held.rows r)) store.rows;
      charges = store.charges ++ charges;
    })

  -- `with engine.claim(scope, claim, probe=probe): body`: `body` is what happens to the store until the
  -- body is over, `used` what each provider's run then says that it used.
  unfoldable pub run_claim :
      Providers
      → String
      → EngineClaim
      → List String
      → Holder
      → ℕ
      → (ℕ → Option ℕ → Bool)
      → (List String → Bool)
      → (Store → Store)
      → (Store → Store)
      → List Resources
      → ℕ
      → Store
      → Result Store
  unfolding hold_claim charge total
  run_claim providers scope claim probe holder reaped_at same_process answers meanwhile body used
        ended_at before =
      do
        (held, store) ←
            hold_claim providers scope claim probe holder reaped_at same_process answers meanwhile
              before
        charge held (total used) ended_at (body store)
