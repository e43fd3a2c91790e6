-- ===== src/Dimensions.antt =====
-- src/lab_commons/resources/dimensions.py and src/lab_commons/width.py: what a box can run out of, and
-- how many copies of a demand fit.
pub mod Table
pub mod TableLaws
pub mod Width
pub mod WidthLaws
mod Samples
