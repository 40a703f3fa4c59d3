-- ===== src/Umash/Finalize.antt =====
-- rotl and finalize.
pub mod Rotation
pub mod Inverse
mod Tests
use umash.Prelude.{ℕ, zero, suc, ◌+◌, ◌*◌, ◌/◌, ◌%◌, ◌^◌, bit_and, bit_or, bit_xor}

-- `ret` after the rounds i = 0, …, n - 1 of the loop.
pub rotl_rounds : ℕ → ℕ → ℕ → ℕ
rotl_rounds zero x count = 0
rotl_rounds (suc i) x count =
    let digit = bit_and (x / 2 ^ i) 1 in
    bit_or (rotl_rounds i x count) (digit * 2 ^ ((i + count) % 64))

pub rotl : ℕ → ℕ → ℕ
rotl x count = rotl_rounds 64 x count

unfoldable pub finalize : ℕ → ℕ
finalize x = bit_xor (bit_xor x (rotl x 8)) (rotl x 33)
