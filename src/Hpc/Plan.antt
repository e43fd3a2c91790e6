-- ===== src/Hpc/Plan.antt =====
-- src/lab_commons/hpc/plan.py and what it reads: what an account has free, how a batch is cut into one wave,
-- the plan of an array, the grants that take it, and which of them are asked first (span.py, allocation.py,
-- affinity.py, jobs.py).
pub mod Quota
pub mod Cut
pub mod Make
pub mod Sound
pub mod Relies
pub mod Session
pub mod Grant
pub mod Span
pub mod Split
pub mod Chosen
pub mod Spread
pub mod Tiers
pub mod Landed
pub mod Answered
pub mod Money
