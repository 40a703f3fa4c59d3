-- ===== src/Sampler.antt =====
-- The permutation sampler of t/exact_test_sampler.py, with its client and server.
pub mod Convert
pub mod Statistics
pub mod Requests
pub mod Servers
pub mod Parallel
pub mod Simulate
pub mod Resample
pub mod Buffer
mod Tests
