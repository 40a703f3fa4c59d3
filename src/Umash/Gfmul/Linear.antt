-- ===== src/Umash/Gfmul/Linear.antt =====
-- The carry-less product is bilinear over `^` and symmetric, and fits 127 bits.
use native.Mathlib.Nat.{pow-suc, zero-mul, one-mul, add-zero, add-suc, one-le-pow}
use umash.Prelude.{ℕ, zero, suc, ◌+◌, ◌*◌, ◌%◌, ◌^◌, ◌<◌, bit_xor, ◌≡◌, sym, ap, arith}
use umash.Bits.{
  bit, bit-lt, bit-xor, xor_laws, bit_xor-zero, zero-bit_xor, shl-bit_xor, bit_xor-lt, lt_pow_mono,
}
use umash.Umash.Params.{w}
use umash.Umash.Gfmul.{gfmul_rounds, gfmul, ph}
use umash.Umash.Gfmul.Digits.{gfmul_rounds-zero, gfmul_rounds-suc}

-- A digit times a number is linear in both.
digit-mul-bit_xor : (b u v : ℕ) → b < 2 → b * bit_xor u v ≡ bit_xor (b * u) (b * v)
digit-mul-bit_xor zero u v h = simp (zero-mul, bit_xor-zero)
digit-mul-bit_xor (suc zero) u v h = simp one-mul
digit-mul-bit_xor (suc (suc b)) u v h = absurd (omega arith)

add_digits-mul : (b c u : ℕ) → b < 2 → c < 2 → (b + c) % 2 * u ≡ bit_xor (b * u) (c * u)
add_digits-mul zero zero u hb hc = rw zero-mul (sym (bit_xor-zero 0))
add_digits-mul zero (suc zero) u hb hc = simp (xor_laws, zero-mul, one-mul)
add_digits-mul (suc zero) zero u hb hc = simp (xor_laws, zero-mul, one-mul)
add_digits-mul (suc zero) (suc zero) u hb hc = simp (xor_laws, zero-mul, one-mul)
add_digits-mul (suc (suc b)) c u hb hc = absurd (omega arith)
add_digits-mul b (suc (suc c)) u hb hc = absurd (omega arith)

gfmul_rounds-bit_xor_right :
    (n x u v : ℕ)
    → gfmul_rounds n x (bit_xor u v) ≡ bit_xor (gfmul_rounds n x u) (gfmul_rounds n x v)
gfmul_rounds-bit_xor_right zero x u v = simp (gfmul_rounds-zero, bit_xor-zero)
gfmul_rounds-bit_xor_right (suc n) x u v =
    rw
      (
        gfmul_rounds-suc,
        gfmul_rounds-suc,
        gfmul_rounds-suc,
        gfmul_rounds-bit_xor_right n x u v,
        shl-bit_xor,
        digit-mul-bit_xor (bit x n) _ _ (bit-lt x n),
      )
      (simp xor_laws)

gfmul_rounds-bit_xor_left :
    (n u v y : ℕ)
    → gfmul_rounds n (bit_xor u v) y ≡ bit_xor (gfmul_rounds n u y) (gfmul_rounds n v y)
gfmul_rounds-bit_xor_left zero u v y = simp (gfmul_rounds-zero, bit_xor-zero)
gfmul_rounds-bit_xor_left (suc n) u v y =
    rw
      (
        gfmul_rounds-suc,
        gfmul_rounds-suc,
        gfmul_rounds-suc,
        gfmul_rounds-bit_xor_left n u v y,
        bit-xor,
        add_digits-mul (bit u n) (bit v n) _ (bit-lt u n) (bit-lt v n),
      )
      (simp xor_laws)

two_pow-add : (k n : ℕ) → 2 ^ (k + n) ≡ 2 ^ k * 2 ^ n
two_pow-add k zero = rw add-zero (omega arith)
two_pow-add k (suc n) =
    rw (add-suc, pow-suc, pow-suc) (omega (arith, ap (λ (t : ℕ). t * 2) (two_pow-add k n)))

digit_term-lt : (b y k n : ℕ) → b < 2 → y < 2 ^ k → b * (y * 2 ^ n) < 2 ^ (k + n)
digit_term-lt zero y k n h small = rw zero-mul (omega (arith, one-le-pow (k + n) 2))
digit_term-lt (suc zero) y k n h small = rw (one-mul, two_pow-add) (grind (arith, one-le-pow n 2))
digit_term-lt (suc (suc b)) y k n h small = absurd (omega arith)

gfmul_rounds-lt : (n x y k : ℕ) → y < 2 ^ k → gfmul_rounds (suc n) x y < 2 ^ (k + n)
gfmul_rounds-lt zero x y k small =
    rw (gfmul_rounds-suc, gfmul_rounds-zero, zero-bit_xor)
      (digit_term-lt (bit x 0) y k 0 (bit-lt x 0) small)
gfmul_rounds-lt (suc n) x y k small = rw gfmul_rounds-suc (
    bit_xor-lt _ _ (k + suc n)
      (lt_pow_mono _ (k + n) (k + suc n) (omega arith) (gfmul_rounds-lt n x y k small))
      (digit_term-lt (bit x (suc n)) y k (suc n) (bit-lt x (suc n)) small))

-- The carry-less product distributes over `^` on the right.
pub gfmul-bit_xor_right : (x u v : ℕ) → gfmul x (bit_xor u v) ≡ bit_xor (gfmul x u) (gfmul x v)
unfolding gfmul
gfmul-bit_xor_right x u v = gfmul_rounds-bit_xor_right 64 x u v

pub gfmul-bit_xor_left : (u v y : ℕ) → gfmul (bit_xor u v) y ≡ bit_xor (gfmul u y) (gfmul v y)
unfolding gfmul
gfmul-bit_xor_left u v y = gfmul_rounds-bit_xor_left 64 u v y

-- The product of two 64-bit words has at most 127 bits.
pub gfmul-lt : (x y : ℕ) → y < 2 ^ 64 → gfmul x y < 2 ^ 127
unfolding gfmul
gfmul-lt x y small = gfmul_rounds-lt 63 x y 64 small

-- A mixed chunk fits 127 bits.
pub ph-lt : (ka kb xa xb : ℕ) → kb < w → xb < w → ph ka kb xa xb < w * w
unfolding ph
ph-lt ka kb xa xb hk hx =
    let product = gfmul-lt (bit_xor xa ka) (bit_xor xb kb) (bit_xor-lt xb kb 64 hx hk) in
    omega (arith, product)
