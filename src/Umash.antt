-- ===== src/Umash.antt =====
-- umash_reference.py, the reference implementation of the hash.
pub mod Params
pub mod Short
pub mod Gfmul
pub mod Finalize
pub mod Poly
pub mod Chunks
pub mod Oh
pub mod Hash
pub mod Samples
