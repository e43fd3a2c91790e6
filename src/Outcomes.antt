-- ===== src/Outcomes.antt =====
-- lab_commons/outcomes: one task-outcome vocabulary.
pub mod Status
pub mod Plain
pub mod KeyOrder
pub mod Cell
pub mod Expectation
pub mod Conclusion
pub mod Record
mod Samples
