-- ===== src/Exact.antt =====
-- t/exact_test.py: the exact two-sample test.
pub mod Statistic
pub mod Plan
pub mod Count
pub mod Loop
pub mod Driver
pub mod Samples
mod Tests
