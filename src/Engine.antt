-- ===== src/Engine.antt =====
-- src/lab_commons/resources: the kinds of resources, and the one path that a claim of any kind takes.
pub mod Kinds
pub mod Store
pub mod Holds
pub mod Parts
pub mod PartSums
pub mod Within
pub mod Charges
mod Samples
