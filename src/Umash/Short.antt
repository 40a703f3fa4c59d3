-- ===== src/Umash/Short.antt =====
-- vec_to_u64 and umash_short: inputs of at most 8 bytes.
pub mod Decode
pub mod Mixer
pub mod Laws
mod Tests
use umash.Prelude.{
  ℕ, ◌+◌, ◌-◌, ◌*◌, ◌/◌, ◌%◌, ◌^◌, bit_and, bit_or, bit_xor, List, length, take, leb, ◌==◌, not,
  if◌then◌else◌,
}
use umash.Python.{Result, ok, ◌>>=◌, ◌>>◌, assert, index, slice, last_items, unpack_u16, unpack_u32}
use umash.Umash.Params.{w}

pub record Halves : Type 0 where
  pub lo : ℕ
  pub hi : ℕ

-- The branch for 4 to 8 bytes.
pub read_long_halves : List ℕ → Result Halves
read_long_halves buf = do
  lo ← unpack_u32 (slice 0 4 buf)
  hi ← unpack_u32 (last_items 4 buf)
  ok (record { lo = lo; hi = hi })

-- The branch for 0 to 3 bytes: the length is decoded in binary.
pub read_short_halves : List ℕ → Result Halves
read_short_halves buf = do
  lo ← if not (bit_and (length buf) 1 == 0) then index buf 0 else ok 0
  hi ← if not (bit_and (length buf) 2 == 0) then unpack_u16 (last_items 2 buf) else ok 0
  ok (record { lo = lo; hi = hi })

pub combine_halves : Halves → ℕ
combine_halves h = bit_or (h.hi * 2 ^ 32) ((h.hi + h.lo) % 2 ^ 32)

pub vec_to_u64 : List ℕ → Result ℕ
vec_to_u64 buf = do
  assert (leb (length buf) 8)
  halves ← if leb 4 (length buf) then read_long_halves buf else read_short_halves buf
  ok (combine_halves halves)

-- h ^= h >> k
pub xorshift : ℕ → ℕ → ℕ
xorshift k h = bit_xor h (h / 2 ^ k)

-- h = (h * m) % W
pub scale : ℕ → ℕ → ℕ
scale m h = h * m % w

abbrev pub first_multiplier : ℕ
first_multiplier = 0xBF58476D1CE4E5B9

abbrev pub second_multiplier : ℕ
second_multiplier = 0x94D049BB133111EB

-- The statements of umash_short from h = vec_to_u64(buf) on.
pub mix_short : ℕ → ℕ → ℕ
mix_short noise h₀ =
    let h₁ = scale first_multiplier (xorshift 30 h₀) in
    let h₂ = bit_xor (xorshift 27 h₁) noise in xorshift 31 (scale second_multiplier h₂)

pub umash_short : List ℕ → ℕ → List ℕ → Result ℕ
umash_short key seed buf = do
  assert (leb (length buf) 8)
  word ← index key (length buf)
  h ← vec_to_u64 buf
  ok (mix_short ((seed + word) % w) h)
