-- ===== src/Outcomes/Cell.antt =====
-- src/lab_commons/outcomes/cell.py: `Reason`, `Cost` and `Cell`, their checks at construction, their
-- equality and their plain form. The parts of a cell are in Cell/Parts.antt, the plain form is in
-- Cell/Stored.antt.
pub mod Parts
pub mod Stored
pub mod Invariants
pub mod RoundTrip
pub mod Equality
