-- ===== src/Bits/Xor.antt =====
-- The laws of `^`, and how the shifts and the remainder by a power of two act on it.
use native.Mathlib.Nat.{le_trans, pow-le-pow_right}
use umash.Prelude.{ℕ, ◌+◌, ◌-◌, ◌*◌, ◌/◌, ◌%◌, ◌^◌, ◌≤◌, ◌<◌, bit_xor, ◌≡◌, sym, ap, ◌∙◌, arith}
use umash.Bits.Digit.{
  bit-lt, bit-zero, bit_ext, bit-xor, bit-shl, bit-shr, bit-mod, bit_above, lt_of_bits,
}

pub bit_xor_comm : (a b : ℕ) → bit_xor a b ≡ bit_xor b a
bit_xor_comm a b = bit_ext _ _ (λ i. omega (arith, bit-xor a b i, bit-xor b a i))

pub bit_xor_assoc : (a b c : ℕ) → bit_xor (bit_xor a b) c ≡ bit_xor a (bit_xor b c)
bit_xor_assoc a b c = bit_ext _ _ λ i.
    omega
      (arith, bit-xor (bit_xor a b) c i, bit-xor a b i, bit-xor a (bit_xor b c) i, bit-xor b c i)

pub bit_xor_left_comm : (a b c : ℕ) → bit_xor a (bit_xor b c) ≡ bit_xor b (bit_xor a c)
bit_xor_left_comm a b c = bit_ext _ _ λ i.
    omega
      (arith, bit-xor a (bit_xor b c) i, bit-xor b c i, bit-xor b (bit_xor a c) i, bit-xor a c i)

pub bit_xor_self : (a : ℕ) → bit_xor a a ≡ 0
bit_xor_self a = bit_ext _ _ (λ i. omega (arith, bit-xor a a i, bit-zero i))

pub bit_xor-zero : (a : ℕ) → bit_xor a 0 ≡ a
bit_xor-zero a = bit_ext _ _ (λ i. omega (arith, bit-xor a 0 i, bit-zero i, bit-lt a i))

pub zero-bit_xor : (a : ℕ) → bit_xor 0 a ≡ a
zero-bit_xor a = bit_ext _ _ (λ i. omega (arith, bit-xor 0 a i, bit-zero i, bit-lt a i))

pub bit_xor_cancel_left : (a b : ℕ) → bit_xor a (bit_xor a b) ≡ b
bit_xor_cancel_left a b =
    bit_ext _ _ (λ i. omega (arith, bit-xor a (bit_xor a b) i, bit-xor a b i, bit-lt b i))

pub bit_xor_cancel_right : (a b : ℕ) → bit_xor (bit_xor a b) b ≡ a
bit_xor_cancel_right a b =
    bit_ext _ _ (λ i. omega (arith, bit-xor (bit_xor a b) b i, bit-xor a b i, bit-lt a i))

pub ruleset xor_laws = (
  bit_xor_comm, bit_xor_assoc, bit_xor_left_comm, bit_xor_self, bit_xor-zero, zero-bit_xor,
  bit_xor_cancel_left,
)

pub bit_xor_inj : (a b c : ℕ) → bit_xor a b ≡ bit_xor a c → b ≡ c
bit_xor_inj a b c h = sym (bit_xor_cancel_left a b) ∙ ap (bit_xor a) h ∙ bit_xor_cancel_left a c

pub bit_xor_inj_right : (a b c : ℕ) → bit_xor b a ≡ bit_xor c a → b ≡ c
bit_xor_inj_right a b c h = bit_xor_inj a b c (bit_xor_comm a b ∙ h ∙ bit_xor_comm c a)

pub eq_of_bit_xor-zero : (a b : ℕ) → bit_xor a b ≡ 0 → a ≡ b
eq_of_bit_xor-zero a b h = bit_xor_inj_right b a b (h ∙ sym (bit_xor_self b))

pub bit_xor-lt : (a b k : ℕ) → a < 2 ^ k → b < 2 ^ k → bit_xor a b < 2 ^ k
bit_xor-lt a b k ha hb =
    lt_of_bits _ k (λ i h. omega (arith, bit-xor a b i, bit_above a k i ha h, bit_above b k i hb h))

pub shl-bit_xor : (a b k : ℕ) → bit_xor a b * 2 ^ k ≡ bit_xor (a * 2 ^ k) (b * 2 ^ k)
shl-bit_xor a b k = bit_ext _ _ λ i. ground (
  arith,
  bit-shl (bit_xor a b) k i,
  bit-xor a b (i - k),
  bit-xor (a * 2 ^ k) (b * 2 ^ k) i,
  bit-shl a k i,
  bit-shl b k i,
)

pub shr-bit_xor : (a b k : ℕ) → bit_xor a b / 2 ^ k ≡ bit_xor (a / 2 ^ k) (b / 2 ^ k)
shr-bit_xor a b k = bit_ext _ _ λ i. omega (
  arith,
  bit-shr (bit_xor a b) k i,
  bit-xor a b (i + k),
  bit-xor (a / 2 ^ k) (b / 2 ^ k) i,
  bit-shr a k i,
  bit-shr b k i,
)

pub mod-bit_xor : (a b k : ℕ) → bit_xor a b % 2 ^ k ≡ bit_xor (a % 2 ^ k) (b % 2 ^ k)
mod-bit_xor a b k = bit_ext _ _ λ i. ground (
  arith,
  bit-mod (bit_xor a b) k i,
  bit-xor a b i,
  bit-xor (a % 2 ^ k) (b % 2 ^ k) i,
  bit-mod a k i,
  bit-mod b k i,
)

pub lt_pow_mono : (a j k : ℕ) → j ≤ k → a < 2 ^ j → a < 2 ^ k
lt_pow_mono a j k h small = le_trans small (pow-le-pow_right (omega arith) h)
