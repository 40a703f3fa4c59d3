-- ===== src/Umash/Finalize/Rotation.antt =====
-- The loop of rotl rotates 64 binary digits; rotations compose and are linear over `^`.
use native.Mathlib.Nat.{zero-add}
use umash.Prelude.{
  ℕ, zero, suc, ◌+◌, ◌-◌, ◌*◌, ◌/◌, ◌%◌, ◌^◌, ◌≤◌, ◌<◌, bit_and, bit_xor, ◌≡◌, ap, ◌∙◌, ltb, ◌==◌,
  if◌then◌else◌, arith,
}
use umash.Bits.{
  bit, bit-lt, bit-zero, bit_ext, bit-xor, bit-or, bit-shl, bit-shr, bit_and-pow, bit_above,
  lt_of_bits,
}
use umash.Umash.Finalize.{rotl_rounds, rotl}

-- The place that digit `j` of a rotated word comes from.
abbrev pub origin : ℕ → ℕ → ℕ
origin count j = (j + (64 - count % 64)) % 64

bit_small : (b i : ℕ) → b < 2 → bit b i ≡ (if i == 0 then b else 0)
unfolding bit
bit_small b zero h = ground arith
bit_small b (suc i) h = let gone : b / 2 ≡ 0 = omega arith in rw gone (bit-zero i ∙ ground arith)

bit-single : (b p j : ℕ) → b < 2 → bit (b * 2 ^ p) j ≡ (if j == p then b else 0)
bit-single b p j h = ground (arith, bit-shl b p j, bit_small b (j - p))

digit-bit : (x i : ℕ) → bit_and (x / 2 ^ i) 1 ≡ bit x i
unfolding bit
digit-bit x i = bit_and-pow (x / 2 ^ i) 0 ∙ omega arith ∙ bit-shr x i 0 ∙ ap (bit x) (zero-add i)

bit-rotl_rounds :
    (n x count j : ℕ)
    → n ≤ 64
    → bit (rotl_rounds n x count) j
      ≡ (if ltb j 64 then if ltb (origin count j) n then bit x (origin count j) else 0 else 0)
unfolding rotl_rounds
bit-rotl_rounds zero x count j h = ground (arith, bit-zero j)
bit-rotl_rounds (suc n) x count j h =
    rw
      (
        bit-or,
        digit-bit,
        bit-rotl_rounds n x count j (omega arith),
        bit-single (bit x n) ((n + count) % 64) j (bit-lt x n),
      )
      (ground arith)

-- Digit j of a rotated word is the digit of the place that it comes from.
pub bit-rotl :
    (x count j : ℕ) → bit (rotl x count) j ≡ (if ltb j 64 then bit x (origin count j) else 0)
unfolding rotl
bit-rotl x count j = bit-rotl_rounds 64 x count j (omega arith) ∙ ground arith

pub rotl-lt : (x count : ℕ) → rotl x count < 2 ^ 64
rotl-lt x count = lt_of_bits _ 64 (λ j h. bit-rotl x count j ∙ ground arith)

pub rotl-bit_xor :
    (a b count : ℕ) → rotl (bit_xor a b) count ≡ bit_xor (rotl a count) (rotl b count)
rotl-bit_xor a b count = bit_ext _ _ λ j. ground (
  arith,
  bit-rotl (bit_xor a b) count j,
  bit-xor a b (origin count j),
  bit-xor (rotl a count) (rotl b count) j,
  bit-rotl a count j,
  bit-rotl b count j,
)

-- A rotation after a rotation is the rotation by the sum of the counts.
pub rotl-rotl : (x a b : ℕ) → rotl (rotl x a) b ≡ rotl x (a + b)
rotl-rotl x a b = bit_ext _ _ λ j.
    let same : origin a (origin b j) ≡ origin (a + b) j = omega arith in
    ground (
      arith,
      bit-rotl (rotl x a) b j,
      bit-rotl x a (origin b j),
      bit-rotl x (a + b) j,
      ap (bit x) same,
    )

-- A rotation by a multiple of 64 changes no 64-bit word.
pub rotl-full : (x k : ℕ) → x < 2 ^ 64 → rotl x (64 * k) ≡ x
rotl-full x k small =
    bit_ext _ _ λ j. ground (arith, bit-rotl x (64 * k) j, bit_above x 64 j small, stay j)
  where
    stay : (j : ℕ) → j < 64 → bit x (origin (64 * k) j) ≡ bit x j
    stay j h = ap (bit x) (omega arith)
