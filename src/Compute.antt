-- ===== src/Compute.antt =====
-- src/lab_commons/compute: resource vectors and the rule that admits a job, with the door onto it
-- in src/lab_commons/resources/engine.py.
pub mod Resources
pub mod Vectors
pub mod Unique
pub mod Admission
pub mod Rule
pub mod Graph
pub mod GraphKeys
pub mod GraphOrder
pub mod GraphDependants
mod Samples
