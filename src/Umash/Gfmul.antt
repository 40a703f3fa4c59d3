-- ===== src/Umash/Gfmul.antt =====
-- gfmul: the carry-less product that the PH mixer is made of.
pub mod Digits
pub mod Linear
pub mod Field
pub mod Universal
mod Tests
use umash.Prelude.{ℕ, zero, suc, ◌*◌, ◌^◌, bit_and, bit_xor, not, ◌==◌, if◌then◌else◌}

-- `ret` after the rounds i = 0, …, n - 1 of the loop.
pub gfmul_rounds : ℕ → ℕ → ℕ → ℕ
gfmul_rounds zero x y = 0
gfmul_rounds (suc i) x y =
    let ret = gfmul_rounds i x y in
    if not (bit_and x (1 * 2 ^ i) == 0) then bit_xor ret (y * 2 ^ i) else ret

pub gfmul : ℕ → ℕ → ℕ
gfmul x y = gfmul_rounds 64 x y

-- The PH mixer of one chunk (xa, xb) under the key words (ka, kb).
pub ph : ℕ → ℕ → ℕ → ℕ → ℕ
ph ka kb xa xb = gfmul (bit_xor xa ka) (bit_xor xb kb)
