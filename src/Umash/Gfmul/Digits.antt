-- ===== src/Umash/Gfmul/Digits.antt =====
-- The rounds of gfmul as a recursion on the lowest digit of the left operand.
use native.Mathlib.Nat.{pow-suc, one-mul, zero-mul, one-le-pow}
use umash.Prelude.{
  ℕ, zero, suc, ◌*◌, ◌/◌, ◌%◌, ◌^◌, bit_xor, ◌≡◌, refl, sym, ap, ◌∙◌, ◌⊎◌, inl, inr, false, ◌==◌,
  arith,
}
use umash.Bits.{bit, bit-lt, bit_and-pow, xor_laws, bit_xor-zero, bit_xor_assoc, shl-bit_xor}
use umash.Umash.Gfmul.{gfmul_rounds}

pub bit_cases : (x i : ℕ) → (bit x i ≡ 0) ⊎ (bit x i ≡ 1)
bit_cases x i = omega (arith, bit-lt x i)

pub gfmul_rounds-zero : (x y : ℕ) → gfmul_rounds zero x y ≡ 0
unfolding gfmul_rounds
gfmul_rounds-zero x y = refl

-- One round, without the branch.
pub gfmul_rounds-suc :
    (i x y : ℕ) → gfmul_rounds (suc i) x y ≡ bit_xor (gfmul_rounds i x y) (bit x i * (y * 2 ^ i))
unfolding gfmul_rounds
gfmul_rounds-suc i x y = rw one-mul (elim (bit_cases x i) [
  | inl clear ↦ rw (bit_and-pow, clear) (simp (zero-mul, bit_xor-zero))
  | inr set ↦
      let nonzero : (bit x i * 2 ^ i == 0) ≡ false =
        rw (set, one-mul) (ground (arith, one-le-pow i 2)) in
      rw (bit_and-pow, nonzero) (ap (bit_xor (gfmul_rounds i x y)) (rw set (sym (one-mul _))))
])

pub double-bit_xor : (a b : ℕ) → bit_xor a b * 2 ≡ bit_xor (a * 2) (b * 2)
double-bit_xor a b = shl-bit_xor a b 1

pub gfmul_rounds_lowest :
    (n x y : ℕ) → gfmul_rounds (suc n) x y ≡ bit_xor (x % 2 * y) (gfmul_rounds n (x / 2) y * 2)
unfolding bit
gfmul_rounds_lowest zero x y =
    gfmul_rounds-suc zero x y
    ∙ rw gfmul_rounds-zero (rw gfmul_rounds-zero (simp xor_laws (omega arith)))
gfmul_rounds_lowest (suc n) x y =
    let next = bit (x / 2) n * (y * 2 ^ n) in
    let doubled : bit (x / 2) n * (y * 2 ^ suc n) ≡ next * 2 = rw pow-suc (omega arith) in
    gfmul_rounds-suc (suc n) x y
    ∙ rw (gfmul_rounds_lowest n x y, doubled, bit_xor_assoc, ← double-bit_xor)
        (rw gfmul_rounds-suc refl)
