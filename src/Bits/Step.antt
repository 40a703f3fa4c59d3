-- ===== src/Bits/Step.antt =====
-- The native bit operations as a recursion on the lowest binary digit.
use Prim.Native.Nat.{digits, bitwise, differ, bit_and-bitwise, bit_or-bitwise, bit_xor-bitwise}
use umash.Prelude.{
  ℕ, zero, suc, ◌+◌, ◌*◌, ◌/◌, ◌%◌, ◌≤◌, ◌<◌, min, max, bit_and, bit_or, bit_xor, ◌≡◌, refl, ◌∙◌,
  ap, arith,
}

module _ (alone : ℕ → ℕ) (join : ℕ → ℕ → ℕ) where
  -- Any fuel that is no less than the left number gives the same digits; `k` bounds the induction.
  digits-bitwise :
      (k fuel a b : ℕ) → a ≤ k → a ≤ fuel → digits alone join fuel a b ≡ bitwise alone join a b
  digits-bitwise k zero zero b hk hf = refl
  digits-bitwise k (suc fuel) zero b hk hf = refl
  digits-bitwise k zero (suc a) b hk hf = absurd (omega arith)
  digits-bitwise zero (suc fuel) (suc a) b hk hf = absurd (omega arith)
  digits-bitwise (suc k) (suc fuel) (suc a) b hk hf =
      let half = suc a / 2 in
      omega (
        arith,
        digits-bitwise k fuel half (b / 2) (omega arith) (omega arith),
        digits-bitwise k a half (b / 2) (omega arith) (omega arith),
      )

  lowest_digit :
      (a b : ℕ)
      → bitwise alone join (suc a) b
        ≡ bitwise alone join (suc a / 2) (b / 2) * 2 + join (suc a % 2) (b % 2)
  lowest_digit a b =
      ap (λ (t : ℕ). t * 2 + join (suc a % 2) (b % 2))
        (digits-bitwise a a (suc a / 2) (b / 2) (omega arith) (omega arith))

differ-parity : (p q : ℕ) → p < 2 → q < 2 → differ p q ≡ (p + q) % 2
differ-parity zero zero hp hq = refl
differ-parity zero (suc zero) hp hq = refl
differ-parity (suc zero) zero hp hq = refl
differ-parity (suc zero) (suc zero) hp hq = refl
differ-parity (suc (suc p)) q hp hq = absurd (omega arith)
differ-parity p (suc (suc q)) hp hq = absurd (omega arith)

pub bit_xor_step : (x y : ℕ) → bit_xor x y ≡ bit_xor (x / 2) (y / 2) * 2 + (x % 2 + y % 2) % 2
bit_xor_step (suc n) y =
    simp bit_xor-bitwise (lowest_digit (λ t. t) differ n y)
    ∙ ap (λ (t : ℕ). bit_xor (suc n / 2) (y / 2) * 2 + t)
        (differ-parity (suc n % 2) (y % 2) (omega arith) (omega arith))
bit_xor_step zero y = simp bit_xor-bitwise (omega arith)

pub bit_or_step : (x y : ℕ) → bit_or x y ≡ bit_or (x / 2) (y / 2) * 2 + max (x % 2) (y % 2)
bit_or_step (suc n) y = simp bit_or-bitwise (lowest_digit (λ t. t) max n y)
bit_or_step zero y = simp bit_or-bitwise (omega arith)

pub bit_and_step : (x y : ℕ) → bit_and x y ≡ bit_and (x / 2) (y / 2) * 2 + min (x % 2) (y % 2)
bit_and_step (suc n) y = simp bit_and-bitwise (lowest_digit (λ t. 0) min n y)
bit_and_step zero y = simp bit_and-bitwise (omega arith)
