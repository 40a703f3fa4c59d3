-- ===== src/Csm.antt =====
-- The confidence sequence method of t/csm.py, on IEEE 754 doubles.
pub mod Ulps
pub mod Sum
pub mod Choose
pub mod Level
pub mod Incbeta
pub mod Icdf
pub mod Driver
pub mod Power
pub mod Samples
mod Tests
