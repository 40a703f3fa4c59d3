-- ===== src/Umash/Gfmul/Universal.antt =====
-- PH is almost-xor-universal: of two different chunks, any difference of their mixed values is
-- hit by at most one value of a key word, whatever the other key word is.
use umash.Prelude.{ℕ, ◌^◌, ◌<◌, bit_xor, ◌≡◌, ◌≢◌, sym, ◌∙◌, ◌⊎◌, inl, inr, arith}
use umash.Bits.{xor_laws, bit_xor-lt, bit_xor_self, eq_of_bit_xor-zero}
use umash.Umash.Gfmul.{gfmul, ph}
use umash.Umash.Gfmul.Linear.{gfmul-bit_xor_left, gfmul-bit_xor_right}
use umash.Umash.Gfmul.Field.{gfmul_no_zero_divisors}

-- The difference of two mixed chunks under one key.
unfoldable pub ph_difference : ℕ → ℕ → ℕ → ℕ → ℕ → ℕ → ℕ
ph_difference ka kb xa xb ya yb = bit_xor (ph ka kb xa xb) (ph ka kb ya yb)

-- Two keys that differ in ka alone change the difference by the product of the changes.
ph_difference_ka :
    (ka ka' kb xa xb ya yb : ℕ)
    → bit_xor (ph_difference ka kb xa xb ya yb) (ph_difference ka' kb xa xb ya yb)
      ≡ gfmul (bit_xor ka ka') (bit_xor xb yb)
unfolding ph_difference ph
ph_difference_ka ka ka' kb xa xb ya yb =
    simp (gfmul-bit_xor_left, gfmul-bit_xor_right) (simp xor_laws)

ph_difference_kb :
    (ka kb kb' xa xb ya yb : ℕ)
    → bit_xor (ph_difference ka kb xa xb ya yb) (ph_difference ka kb' xa xb ya yb)
      ≡ gfmul (bit_xor xa ya) (bit_xor kb kb')
unfolding ph_difference ph
ph_difference_kb ka kb kb' xa xb ya yb =
    simp (gfmul-bit_xor_left, gfmul-bit_xor_right) (simp xor_laws)

-- For chunks that differ in their high word, any fixed kb and any difference, at most one 64-bit
-- ka gives the difference.
pub ph_xor_universal_ka :
    (ka ka' kb xa xb ya yb : ℕ)
    → ka < 2 ^ 64
    → ka' < 2 ^ 64
    → xb ≢ yb
    → ph_difference ka kb xa xb ya yb ≡ ph_difference ka' kb xa xb ya yb
    → ka ≡ ka'
ph_xor_universal_ka ka ka' kb xa xb ya yb small small' differ same =
    let change = bit_xor ka ka' in
    let product : gfmul change (bit_xor xb yb) ≡ 0 =
      sym (ph_difference_ka ka ka' kb xa xb ya yb) ∙ rw same (bit_xor_self _) in
    let cases : (change ≡ 0) ⊎ (change ≢ 0) = omega arith in
    elim cases [
      | inl equal ↦ eq_of_bit_xor-zero ka ka' equal
      | inr moved ↦ absurd (
          differ (
            eq_of_bit_xor-zero xb yb
              (gfmul_no_zero_divisors change _ (bit_xor-lt ka ka' 64 small small') moved product)))
    ]

-- For chunks that differ in their low word, any fixed ka and any difference, at most one kb gives
-- the difference.
pub ph_xor_universal_kb :
    (ka kb kb' xa xb ya yb : ℕ)
    → xa < 2 ^ 64
    → ya < 2 ^ 64
    → xa ≢ ya
    → ph_difference ka kb xa xb ya yb ≡ ph_difference ka kb' xa xb ya yb
    → kb ≡ kb'
ph_xor_universal_kb ka kb kb' xa xb ya yb small small' differ same =
    let product : gfmul (bit_xor xa ya) (bit_xor kb kb') ≡ 0 =
      sym (ph_difference_kb ka kb kb' xa xb ya yb) ∙ rw same (bit_xor_self _) in
    eq_of_bit_xor-zero kb kb' (
      gfmul_no_zero_divisors (bit_xor xa ya) _ (bit_xor-lt xa ya 64 small small')
        (λ e. differ (eq_of_bit_xor-zero xa ya e)) product)
