-- ===== src/Umash/Short/Mixer.antt =====
-- The mixer of umash_short is a permutation of the 64-bit words, for every noise.
use native.Mathlib.Nat.{div-le_self}
use umash.Prelude.{ℕ, ◌/◌, ◌^◌, ◌<◌, bit_xor, ◌≡◌, arith}
use umash.Bits.{xor_laws, bit_xor-lt, shr-bit_xor, bit_xor_cancel_left, bit_xor_cancel_right}
use umash.Umash.Params.{w}
use umash.Umash.Short.{xorshift, scale, first_multiplier, second_multiplier, mix_short}

-- Undoes `h ^= h >> k` on 64-bit words, for 3 * k ≥ 64.
pub unxorshift : ℕ → ℕ → ℕ
unxorshift k h = bit_xor h (bit_xor (h / 2 ^ k) (h / 2 ^ k / 2 ^ k))

pub unxorshift-xorshift :
    (k h : ℕ) → h / 2 ^ k / 2 ^ k / 2 ^ k ≡ 0 → unxorshift k (xorshift k h) ≡ h
unfolding xorshift unxorshift
unxorshift-xorshift k h small = simp (shr-bit_xor, small, xor_laws)

pub xorshift-unxorshift :
    (k h : ℕ) → h / 2 ^ k / 2 ^ k / 2 ^ k ≡ 0 → xorshift k (unxorshift k h) ≡ h
unfolding xorshift unxorshift
xorshift-unxorshift k h small = simp (shr-bit_xor, small, xor_laws)

pub xorshift-lt : (k h : ℕ) → h < w → xorshift k h < w
unfolding xorshift
xorshift-lt k h small = bit_xor-lt h (h / 2 ^ k) 64 small (omega (arith, div-le_self h (2 ^ k)))

unxorshift-lt : (k h : ℕ) → h < w → unxorshift k h < w
unfolding unxorshift
unxorshift-lt k h small =
    let once : h / 2 ^ k < w = omega (arith, div-le_self h (2 ^ k)) in
    let twice : h / 2 ^ k / 2 ^ k < w = omega (arith, once, div-le_self (h / 2 ^ k) (2 ^ k)) in
    bit_xor-lt h _ 64 small (bit_xor-lt (h / 2 ^ k) _ 64 once twice)

-- The inverses of the multipliers modulo 2 ^ 64.
abbrev pub first_inverse : ℕ
first_inverse = 0x96DE1B173F119089

abbrev pub second_inverse : ℕ
second_inverse = 0x319642B2D24D8EC3

scale_first : (h : ℕ) → h < w → scale first_inverse (scale first_multiplier h) ≡ h
unfolding scale
scale_first h small = omega arith

scale_second : (h : ℕ) → h < w → scale second_inverse (scale second_multiplier h) ≡ h
unfolding scale
scale_second h small = omega arith

scale-lt : (m h : ℕ) → scale m h < w
unfolding scale
scale-lt m h = omega arith

-- Three shifts by 27 bits or more leave nothing of a 64-bit word.
shifted_out_27 : (h : ℕ) → h < w → h / 2 ^ 27 / 2 ^ 27 / 2 ^ 27 ≡ 0
shifted_out_27 h small = omega arith

shifted_out_30 : (h : ℕ) → h < w → h / 2 ^ 30 / 2 ^ 30 / 2 ^ 30 ≡ 0
shifted_out_30 h small = omega arith

shifted_out_31 : (h : ℕ) → h < w → h / 2 ^ 31 / 2 ^ 31 / 2 ^ 31 ≡ 0
shifted_out_31 h small = omega arith

-- The statements of the mixer, undone in the opposite order.
pub unmix_short : ℕ → ℕ → ℕ
unmix_short noise h₄ =
    let h₃ = scale second_inverse (unxorshift 31 h₄) in
    let h₁ = unxorshift 27 (bit_xor h₃ noise) in unxorshift 30 (scale first_inverse h₁)

-- The mixer keeps 64-bit words.
pub mix_short-lt : (noise h : ℕ) → mix_short noise h < w
unfolding mix_short
mix_short-lt noise h = xorshift-lt 31 _ (scale-lt _ _)

-- For each noise the mixer is injective on 64-bit words: `unmix_short` recovers the argument.
pub unmix_short-mix_short :
    (noise h : ℕ) → h < w → noise < w → unmix_short noise (mix_short noise h) ≡ h
unfolding mix_short unmix_short
unmix_short-mix_short noise h small noise_small =
    let h₀ = xorshift 30 h in
    let h₁ = scale first_multiplier h₀ in
    let h₂ = bit_xor (xorshift 27 h₁) noise in
    let h₂-lt : h₂ < w = bit_xor-lt _ noise 64 (xorshift-lt 27 h₁ (scale-lt _ h₀)) noise_small in
    rw (
      unxorshift-xorshift 31 (scale second_multiplier h₂) (shifted_out_31 _ (scale-lt _ _)),
      scale_second h₂ h₂-lt,
      bit_xor_cancel_right (xorshift 27 h₁) noise,
      unxorshift-xorshift 27 h₁ (shifted_out_27 h₁ (scale-lt _ _)),
      scale_first h₀ (xorshift-lt 30 h small),
      unxorshift-xorshift 30 h (shifted_out_30 h small),
    )

scale_second_back : (h : ℕ) → h < w → scale second_multiplier (scale second_inverse h) ≡ h
unfolding scale
scale_second_back h small = omega arith

-- The value of `h` before the noise is mixed in, and the one that gives the hash `y`.
pub before_noise : ℕ → ℕ
before_noise h = xorshift 27 (scale first_multiplier (xorshift 30 h))

pub after_noise : ℕ → ℕ
after_noise y = scale second_inverse (unxorshift 31 y)

-- The noise that maps `h` to `y`.
pub noise_between : ℕ → ℕ → ℕ
noise_between h y = bit_xor (before_noise h) (after_noise y)

pub noise_between-lt : (h y : ℕ) → noise_between h y < w
unfolding noise_between before_noise after_noise
noise_between-lt h y = bit_xor-lt _ _ 64 (xorshift-lt 27 _ (scale-lt _ _)) (scale-lt _ _)

pub mix_short-noise_between : (h y : ℕ) → y < w → mix_short (noise_between h y) h ≡ y
unfolding mix_short noise_between before_noise after_noise
mix_short-noise_between h y small = rw (
  bit_xor_cancel_left,
  scale_second_back (unxorshift 31 y) (unxorshift-lt 31 y small),
  xorshift-unxorshift 31 y (shifted_out_31 y small),
)

pub noise_between-mix_short :
    (noise h : ℕ) → noise < w → noise_between h (mix_short noise h) ≡ noise
unfolding mix_short noise_between before_noise after_noise
noise_between-mix_short noise h small =
    let before = before_noise h in
    let h₂-lt : bit_xor before noise < w =
      bit_xor-lt before noise 64 (xorshift-lt 27 _ (scale-lt _ _)) small in
    rw (
      unxorshift-xorshift 31 (scale second_multiplier (bit_xor before noise))
          (shifted_out_31 _ (scale-lt _ _)),
      scale_second (bit_xor before noise) h₂-lt,
      bit_xor_cancel_left before noise,
    )
