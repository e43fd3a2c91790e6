-- ===== src/Lib.antt =====
-- lab-commons: the libraries that the lab's repositories share. This library models the parts of
-- it that decide: what a recorded outcome may say and which recorded outcome stands
-- (src/lab_commons/outcomes), which job a machine admits (src/lab_commons/compute), and what the
-- machine can lend now and whether an earlier ticket is held up by a later one
-- (src/lab_commons/box), what the engine holds and charges on a scope
-- (src/lab_commons/resources), how many copies of a demand fit in a capacity
-- (src/lab_commons/width.py, over the dimensions of src/lab_commons/resources/dimensions.py), how a
-- batch is planned, cut into shards and spread over the accounts that a machine may use, and what
-- a round of a test run leaves to be run again (src/lab_commons/hpc).
--
-- The parts and how they meet. A task's outcome is a cell (status, values, reason, evidence,
-- cost); an event carries it under a key, and the record appends events to a file of JSON lines
-- and keeps views of them. Jobs ask for resource vectors; the rule of compute admits a demand
-- against a supply less what runs. The box measures its supply from its capacity, its claims and
-- a reading of the machine, and asks that rule, through the engine's door, whether a demand fits
-- now or at a later moment. A waiter queues a ticket in the ledger and looks again and again: each
-- look reaps the ledger and enters the claim when the rule admits it and no earlier ticket is
-- delayed. The engine asks the same rule of what its providers measure, holds a row for each kind
-- of resource in the same ledger file, and charges what a run used of the consumables.
-- A batch of items is planned on a snapshot of each account (`plan_on`), put on the best one
-- (`allocate`) or spread over several (`span`), on free accounts before costed ones (`tiered`). When
-- a round of it ends, its streams are folded into test cells, what it measured is learned, and what
-- it left undone is grouped for the next round (`fold`, `grown_after`, `oom_bounded`).
--
-- Files, and the code that they model (paths from the repository's root, or below
-- src/lab_commons):
--   Commons.antt, Commons/*: shared names; results that may fail (an exception is its class, its
--     message is not modelled), association lists in insertion order for dictionaries, integers.
--   Outcomes/Status.antt: src/lab_commons/outcomes/status.py. `Status.OK` and `Status.ERROR` are
--     `ok_status` and `error_status`.
--   Outcomes/Plain.antt: the values of JSON text with Python's `==`. A float is a multiple of
--     2^-1074, an infinity or nan.
--   Outcomes/Cell/Parts.antt, Cell/Stored.antt: outcomes/cell.py (`Reason`, `Cost`, `Cell`: the
--     constructors `make_reason`, `make_cost`, `make_cell`; `__eq__` is `cell_eq`; `to_plain`
--     and `from_plain` are `cell_to_plain` and `cell_from_plain`). Proofs: Cell/Invariants,
--     Cell/RoundTrip, Cell/Equality.
--   Outcomes/Expectation.antt and Outcomes/Conclusion.antt: outcomes/expectation.py and
--     conclusion.py.
--   Outcomes/Record/Jsonl.antt: outcomes/jsonl.py, `read_jsonl`. Proofs: Record/Lines.
--   Outcomes/Record/Event.antt: `Event` and the schema upgrades of outcomes/record.py. Proofs:
--     Record/EventLaws, Record/EventRoundTrip.
--   Outcomes/Record/Log.antt: `Record` of outcomes/record.py: `open_record` is its constructor,
--     `numbered`, `apply`, `admit`, `append`, `submit`, `outcome` its methods. Proofs:
--     Record/Views, Append, Finality, Attempts, Repeats, Durable, SortedLine, SortedEvent, Reopen.
--   Outcomes/KeyOrder.antt: the order of keys in a line (`sort_keys=True` in `append`). The text of
--     a line is that of `event_to_plain`; the order is that of the object that is read back.
--   Compute/Resources.antt, Compute/Admission.antt: compute/model.py (`Resources`, `total`,
--     `Supply`, `Job`), compute/admission.py and `admits` of resources/engine.py. Proofs:
--     Compute/Vectors, Unique, Rule.
--   Compute/Graph.antt: compute/graph.py, and of compute/unit.py the inputs and outputs that it
--     reads. Proofs: Compute/GraphKeys, GraphOrder,
--     GraphDependants.
--   Box/Demand.antt, Box/Room.antt, Box/Order.antt: box/demand.py, box/supply.py, the measures
--     of box/providers.py, box/order.py and compute/probe.py. Proofs: Box/Checks, Box/Amounts,
--     Box/Measure, Box/Bounds, Box/Starts.
--   Box/Ended.antt: `ProcessEnd`, `write_ended` and `read_ended` of box/demand.py.
--   Box/Ledger.antt: the rows, `reap`, `hand_over`, `persist`, `release` and `declare` of
--     box/ledger.py. Proofs: Box/Reap.
--   Box/Queue.antt: `_decide`, `_try` (`try_ticket`) and `stuck_at_head` of box/ledger.py, and the
--     `read` of box/_store.py (`read_rows`). Proofs: Box/QueueLaws.
--   Box/Wait.antt, Box/Hold.antt, Box/External.antt: `_wait`, `hold`, `take`, `external` and
--     `adopted` of box/ledger.py, and `Capacity.lent` of box/demand.py (`lent`). The context manager
--     `hold` takes its body as a function of the claim's id and the ledger. Proofs: Box/HoldLaws,
--     Box/HoldKept.
--   Box/Pool.antt: the specification of the ledger as a pool of cores and bytes. Box/PoolSteps,
--     Box/LedgerSteps (the transactions as a step relation, but declarations and looks of a process that holds a claim
--     of its own), Box/PoolRefines: proofs.
--   Box/Slots.antt: all transactions of the ledger, and the specification of them as slots, each of
--     a process. Proofs: Box/SlotsRefine.
--   Engine/Kinds.antt, Engine/Store.antt, Engine/Holds.antt: resources/model.py and
--     resources/engine.py; `Claim` is `EngineClaim`, `Held` is `EngineHeld`, `_hold` is
--     `hold_claim` and `claim` is `run_claim`. Proofs: Engine/Parts, PartSums, Within, Charges.
--   Hpc/Shards.antt: `_pack`, `balance` and `_wall` of hpc/shards.py. Proofs: Hpc/Pack, Hpc/Balance,
--     Hpc/Covered, Hpc/Loads, Hpc/Faster.
--   Hpc/Region.antt: hpc/region.py, with `Paging.pages` and `Paging.size` of hpc/grants.py. Proofs:
--     Hpc/Drain.
--   Hpc/TestCells.antt: hpc/testcells.py, with `TEST_WORDS` of hpc/retired.py. Proofs: Hpc/Merge.
--   Hpc/Round/Stream.antt: `badness`, `canonical` and `read_stream` of hpc/pytest_item.py.
--   Hpc/Round/Measured.antt: the facts of compute/measured.py, `learn` and `killed`; `_outgrow` is
--     `outgrow`, `_killed_peak` is `killed_peak`.
--   Hpc/Round/Losses.antt, Round/Fold.antt: `_plain` (`plain_of`), `_cell` (`loss_cell`),
--     `_killed_after` and `fold` of hpc/records.py. Proofs: Round/Covers, Reported, Kept,
--     Top.
--   Hpc/Round/Growth.antt: `grown_after` and `oom_bounded` of hpc/gather.py. Proofs: Round/Dropped,
--     Regrown, Lone.
--   Hpc/Plan/Quota.antt: the data of hpc/slurm.py, `Cost` and `Limits` of hpc/config.py, and what
--     an account has free (hpc/plan.py). `quota_slots(..., remaining=True)` is `slots_left`.
--   Hpc/Plan/Cut.antt: `_shards` (`shards_of`) and `one_wave` of hpc/shards.py.
--   Hpc/Plan/Make.antt: `_open`, `_ceiling`, `_held`, `_top` and `make_plan` of hpc/plan.py
--     (`open_in`, `ceiling_of`, `held_to_top`, `top_of`). Proofs: Plan/Sound, Plan/Relies.
--   Hpc/Plan/Session.antt: `active`, `pool`, `fair`, `derived` and `session_room` of
--     hpc/allocation.py, and `Session` of hpc/grants.py.
--   Hpc/Plan/Grant.antt: `Grant` of hpc/grants.py; `plan_on`, `allocate` and `spend` of hpc/plan.py.
--     Proofs: Plan/Chosen, Plan/Landed.
--   Hpc/Plan/Span.antt: hpc/span.py. Proofs: Plan/Split, Plan/Spread, Plan/Landed.
--   Hpc/Plan/Tiers.antt: `place` of hpc/affinity.py; `_answering`, `_holding` and `tiered` of
--     hpc/jobs.py. Proofs: Plan/Answered, Plan/Money.
--   Dimensions/Table.antt and Dimensions/Width.antt: resources/dimensions.py and width.py.
--     Proofs: Dimensions/TableLaws, Dimensions/WidthLaws.
--   Outcomes/Samples*, Compute/Samples.antt, Box/Samples.antt, Box/QueueSamples.antt,
--     Box/HoldSamples.antt, Dimensions/Samples.antt, Engine/Samples.antt, Hpc/Samples.antt,
--     Hpc/RoundSamples.antt, Hpc/PlanSamples.antt: data and the theorems at it.
--
-- State. A record is a value: an operation takes the record before and gives the record after,
-- or the exception's class. Every check of `append` is made before its first write, so an
-- operation that raises leaves the record as it was. The file is its bytes. The ledger is its rows
-- in the order of their ids; a transaction is one function of it, since the store runs transactions
-- one after another and rolls one back that raises. What other processes do between the
-- transactions of a waiter is a function of the ledger that each of its looks carries.
--
-- Bounds and fuel. The upgrade of old lines has two rounds: only schema 1 and 2 are upgraded,
-- and each round moves one up. The order of a graph has as many rounds as units: each takes one
-- off; its dependants have one more, each of which finds another unit. A wait runs over a list of
-- looks: the loop of the code ends at the first look whose time is past the waiter's patience, so a
-- list that has such a look is long enough. The bounds of a shard grow in at most as many rounds as
-- there are seconds in the batch, and one more: a bound past the sum leaves one shard, which an array
-- takes. A resource amount is a natural number of units of 2^-30, so that an amount of `mem_gb` is
-- its bytes; amounts of cores, seats and bytes are multiples of the unit, and Python's doubles
-- add and subtract them exactly below 2^23. Memory of an account is in bytes. Times are natural
-- numbers: a round's in milliseconds, to which the code rounds them, a plan's in one unit that a
-- minute is a multiple of. Differences that Python
-- floors at zero stop at zero here.
--
-- Parameters. The text of a line (`json.dumps`) and the value that a text spells (`json.loads`)
-- are arguments. The file of a record needs of `dumps` that its text has no newline, which is
-- how `json.dumps` with separators and without indentation writes it. The name of the platform's
-- OS is an argument of box/order.py's functions, as `sys.platform` is read there. Whether a
-- process still runs and what a probe answers are arguments of `reap`; the readings of the machine
-- are part of a look. What the providers of the engine measure, the windows of the consumables
-- (`window_s`, a table of the machine file) and the tools that are known are arguments. That the
-- text of a line is read as the object that was written, the keys of its objects in order, is a
-- hypothesis of the theorem on a record opened again. A policy carries what the code does in floats: the safety factor (`pad`), the growth
-- of a shard's bounds by a tenth (`grow`) and a quotient (`share`). The sentences of the reasons that
-- a round stamps (`told`), the text that joins a session's name to its prefix (`append`), what the
-- login hosts of a grant answer (`probe`) and `==` of grants (`same`) are arguments.
--
-- Not modelled: failures of the file system, the messages of exceptions, the readings of a
-- process table, the presence reading of the box's seats, the tables of the SQLite store, the
-- enforcers of a limit, the order of the forge's candidates, the parsers of what Slurm
-- prints and of the configuration and machine files, the processes of a run and their files, the
-- packing of items by what they measured, and viz and the single-file helpers beside them.
pub mod Commons
pub mod Outcomes
pub mod Compute
pub mod Box
pub mod Dimensions
pub mod Engine
pub mod Hpc
