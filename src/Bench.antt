-- ===== src/Bench.antt =====
-- The benchmark driver of t/umash_bench.py.
pub mod Blocks
pub mod Traces
pub mod Compare
mod Tests
