-- ===== src/Bits/Fields.antt =====
-- Numbers put together of a high and a low part.
use native.Mathlib.Nat.{
  mul-add-mod_self_right, mul-add-div_right, mod-eq_of_lt, div-eq_of_lt, one-le-pow, pow-suc,
}
use umash.Prelude.{
  ℕ, zero, suc, ◌+◌, ◌-◌, ◌*◌, ◌/◌, ◌%◌, ◌^◌, ◌<◌, bit_and, bit_or, ◌≡◌, sym, ap, ◌∙◌, ltb,
  Bool-cases, inl, inr, if◌then◌else◌, arith,
}
use umash.Bits.Step.{bit_and_step}
use umash.Bits.Digit.{bit, bit_ext, bit-or, bit-and, bit-shl, bit-shr, bit-mod, bit_above, bit-zero}

-- The digits of a high part above `k` digits of a low part.
pub bit-fields :
    (k hi lo i : ℕ)
    → lo < 2 ^ k
    → bit (hi * 2 ^ k + lo) i ≡ (if ltb i k then bit lo i else bit hi (i - k))
bit-fields k hi lo i small =
    let low : (hi * 2 ^ k + lo) % 2 ^ k ≡ lo =
      mul-add-mod_self_right hi (2 ^ k) lo ∙ mod-eq_of_lt small in
    let high : (hi * 2 ^ k + lo) / 2 ^ k ≡ hi =
      mul-add-div_right (one-le-pow k 2 (omega arith)) hi lo
      ∙ ap (λ t. hi + t) (div-eq_of_lt small)
      ∙ omega arith in
    elim (Bool-cases (ltb i k)) [
      | inl below ↦
          rw below (sym (bit-mod (hi * 2 ^ k + lo) k i ∙ rw below) ∙ ap (λ t. bit t i) low)
      | inr above ↦
          let back : i - k + k ≡ i = ground arith in
          rw above (
            sym (bit-shr (hi * 2 ^ k + lo) k (i - k) ∙ ap (bit (hi * 2 ^ k + lo)) back)
            ∙ ap (λ t. bit t (i - k)) high)
    ]

-- `(hi << k) | lo` is a sum when `lo` fits `k` digits.
pub bit_or-fields : (k hi lo : ℕ) → lo < 2 ^ k → bit_or (hi * 2 ^ k) lo ≡ hi * 2 ^ k + lo
bit_or-fields k hi lo small = bit_ext _ _ λ i.
    ground (
      arith,
      bit-or (hi * 2 ^ k) lo i,
      bit-shl hi k i,
      bit-fields k hi lo i,
      bit_above lo k i small,
    )

bit_and-zero : (a : ℕ) → bit_and a 0 ≡ 0
bit_and-zero a = bit_ext _ _ (λ i. omega (arith, bit-and a 0 i, bit-zero i))

-- `x & (1 << i)` isolates one digit.
pub bit_and-pow : (a i : ℕ) → bit_and a (2 ^ i) ≡ bit a i * 2 ^ i
unfolding bit
bit_and-pow a zero = omega (arith, bit_and_step a 1, bit_and-zero (a / 2))
bit_and-pow a (suc i) =
    let half : 2 ^ suc i / 2 ≡ 2 ^ i = omega (arith, pow-suc 2 i) in
    bit_and_step a (2 ^ suc i) ∙ rw half (rw (bit_and-pow (a / 2) i, pow-suc) (omega arith))
