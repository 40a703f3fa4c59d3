-- ===== src/Umash/Gfmul/Field.antt =====
-- gfmul is the product of polynomials over the field of two elements: its digits are the
-- coefficients of the product, and it has no zero divisors.
use native.Mathlib.Nat.{zero-mul, one-mul, mod-add-mod, two-pow-succ}
use umash.Prelude.{
  ℕ, zero, suc, ◌+◌, ◌-◌, ◌*◌, ◌/◌, ◌%◌, ◌^◌, ◌≤◌, ◌<◌, bit_xor, ◌≡◌, ◌≢◌, refl, sym, ap, ◌∙◌, ◌⊎◌,
  inl, inr, ltb, if◌then◌else◌, arith,
}
use umash.Bits.{bit, bit-lt, bit-zero, bit-xor, bit-shl, zero-bit_xor, eq_of_bit_xor-zero}
use umash.Umash.Gfmul.{gfmul_rounds, gfmul}
use umash.Umash.Gfmul.Digits.{
  gfmul_rounds-zero, gfmul_rounds-suc, gfmul_rounds_lowest, double-bit_xor,
}

-- The contribution of x's coefficient i to coefficient k of the product, and the sum over i < n.
abbrev pub coefficient : ℕ → ℕ → ℕ → ℕ → ℕ
coefficient x y k i = if ltb k i then 0 else bit x i * bit y (k - i)

pub convolution : ℕ → ℕ → ℕ → ℕ → ℕ
convolution zero x y k = 0
convolution (suc i) x y k = convolution i x y k + coefficient x y k i

bit-digit_term :
    (b y i k : ℕ) → b < 2 → bit (b * (y * 2 ^ i)) k ≡ (if ltb k i then 0 else b * bit y (k - i))
bit-digit_term zero y i k h = simp zero-mul (ground (arith, bit-zero k))
bit-digit_term (suc zero) y i k h = simp one-mul (bit-shl y i k)
bit-digit_term (suc (suc b)) y i k h = absurd (omega arith)

bit-gfmul_rounds : (n x y k : ℕ) → bit (gfmul_rounds n x y) k ≡ convolution n x y k % 2
unfolding convolution
bit-gfmul_rounds zero x y k = rw (gfmul_rounds-zero) (bit-zero k)
bit-gfmul_rounds (suc n) x y k =
    rw
      (
        gfmul_rounds-suc,
        bit-xor,
        bit-gfmul_rounds n x y k,
        bit-digit_term (bit x n) y n k (bit-lt x n),
      )
      (mod-add-mod (convolution n x y k) 2 _)

-- Digit k of the product is the sum of x_i * y_(k - i) over i < 64, modulo 2.
pub bit-gfmul : (x y k : ℕ) → bit (gfmul x y) k ≡ convolution 64 x y k % 2
unfolding gfmul
bit-gfmul x y k = bit-gfmul_rounds 64 x y k

-- Both operands are even or odd: one digit at a time.
gfmul_rounds_even : (n x y : ℕ) → gfmul_rounds n x (y * 2) ≡ gfmul_rounds n x y * 2
gfmul_rounds_even zero x y = rw (gfmul_rounds-zero) (rw (gfmul_rounds-zero) refl)
gfmul_rounds_even (suc n) x y =
    let term = bit x n * (y * 2 ^ n) in
    let doubled : bit x n * (y * 2 * 2 ^ n) ≡ term * 2 = omega arith in
    rw (gfmul_rounds-suc, gfmul_rounds_even n x y, doubled, ← double-bit_xor)
      (ap (λ t. t * 2) (sym (gfmul_rounds-suc n x y)))

gfmul_rounds_no_zero_divisors :
    (n bound x y : ℕ) → x < 2 ^ n → x ≢ 0 → y ≤ bound → gfmul_rounds n x y ≡ 0 → y ≡ 0
gfmul_rounds_no_zero_divisors zero bound x y small nonzero h e = absurd (nonzero (omega arith))
gfmul_rounds_no_zero_divisors (suc n) zero x y small nonzero h e = omega arith
gfmul_rounds_no_zero_divisors (suc n) (suc bound) x y small nonzero h e =
    let rest = gfmul_rounds n (x / 2) y * 2 in
    let split : bit_xor (x % 2 * y) rest ≡ 0 = sym (gfmul_rounds_lowest n x y) ∙ e in
    let parity : (x % 2 ≡ 0) ⊎ (x % 2 ≡ 1) = omega arith in
    elim parity [
      | inl even ↦
          let shifted : rest ≡ 0 = rw (even, zero-mul, zero-bit_xor) at split in
          gfmul_rounds_no_zero_divisors n (suc bound) (x / 2) y (omega (arith, two-pow-succ n))
            (λ half. nonzero (omega arith)) h (omega arith)
      | inr odd ↦
          let shifted : y ≡ rest = eq_of_bit_xor-zero y rest (rw (odd, one-mul) at split) in
          let halved : y / 2 * 2 ≡ y = omega (arith, shifted) in
          let smaller : gfmul_rounds (suc n) x (y / 2) * 2 ≡ 0 =
            sym (gfmul_rounds_even (suc n) x (y / 2)) ∙ ap (gfmul_rounds (suc n) x) halved ∙ e in
          let none =
            gfmul_rounds_no_zero_divisors (suc n) bound x (y / 2) small nonzero (omega arith)
              (omega (arith, smaller)) in
          omega (arith, none)
    ]

-- The product of two nonzero words of which the left has 64 bits is not zero.
pub gfmul_no_zero_divisors : (x y : ℕ) → x < 2 ^ 64 → x ≢ 0 → gfmul x y ≡ 0 → y ≡ 0
unfolding gfmul
gfmul_no_zero_divisors x y small nonzero e =
    gfmul_rounds_no_zero_divisors 64 y x y small nonzero (omega arith) e
