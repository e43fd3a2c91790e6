-- ===== src/Box.antt =====
-- src/lab_commons/box: what a run asks for, what the machine can lend now, and the queue's order.
pub mod Demand
pub mod Checks
pub mod Room
pub mod Amounts
pub mod Measure
pub mod Bounds
pub mod Order
pub mod Ended
pub mod Ledger
pub mod Reap
pub mod Queue
pub mod Pool
pub mod PoolSteps
pub mod Wait
pub mod Hold
pub mod External
pub mod LedgerSteps
pub mod PoolRefines
pub mod Slots
pub mod SlotsRefine
pub mod HoldLaws
pub mod HoldKept
pub mod QueueLaws
mod QueueSamples
mod HoldSamples
pub mod Starts
mod Samples
