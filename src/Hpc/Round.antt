-- ===== src/Hpc/Round.antt =====
-- A round of a test run: the streams of its items (src/lab_commons/hpc/pytest_item.py), what they measure
-- (src/lab_commons/compute/measured.py), and what the round leaves (src/lab_commons/hpc/records.py, gather.py).
pub mod Stream
pub mod Measured
pub mod Losses
pub mod Fold
pub mod Covers
pub mod Reported
pub mod Kept
pub mod Growth
pub mod Top
pub mod Dropped
pub mod Regrown
pub mod Lone
