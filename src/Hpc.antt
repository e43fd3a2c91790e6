-- ===== src/Hpc.antt =====
-- src/lab_commons/hpc: how the items of a batch are cut into shards, the region of the large tasks, what a
-- round of a test run leaves, and where a batch is planned, spread and paid.
pub mod Region
pub mod Drain
pub mod Shards
pub mod Pack
pub mod Balance
pub mod Covered
pub mod Loads
pub mod Faster
pub mod TestCells
pub mod Merge
pub mod Round
pub mod Plan
mod Samples
mod RoundSamples
mod PlanSamples
