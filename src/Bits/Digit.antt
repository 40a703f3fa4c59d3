-- ===== src/Bits/Digit.antt =====
-- Numbers as sequences of binary digits: a number is determined by its digits, and the shifts and
-- the remainder by a power of two move or cut them.
use native.Mathlib.Nat.{
  pow-suc, pow-succ', add-zero, add-suc, div-one, div-div-eq-div-mul, div-add-mod, mod-one, mod-lt,
  mod-eq_of_lt, mul-add-mod_self_left, one-le-pow,
}
use umash.Prelude.{
  ℕ, zero, suc, ◌+◌, ◌-◌, ◌*◌, ◌/◌, ◌%◌, ◌^◌, ◌≤◌, ◌<◌, min, max, bit_and, bit_or, bit_xor, ◌≡◌,
  refl, sym, ap, ◌∙◌, ltb, if◌then◌else◌, arith,
}
use umash.Bits.Step.{bit_or_step, bit_and_step, bit_xor_step}

-- The binary digit of weight 2 ^ i.
unfoldable pub bit : ℕ → ℕ → ℕ
bit a zero = a % 2
bit a (suc i) = bit (a / 2) i

pub bit-lt : (a i : ℕ) → bit a i < 2
unfolding bit
bit-lt a zero = omega arith
bit-lt a (suc i) = bit-lt (a / 2) i

pub bit-zero : (i : ℕ) → bit 0 i ≡ 0
unfolding bit
bit-zero zero = refl
bit-zero (suc i) = bit-zero i

bit_ext_below : (n a b : ℕ) → a ≤ n → b ≤ n → ((i : ℕ) → bit a i ≡ bit b i) → a ≡ b
unfolding bit
bit_ext_below zero a b ha hb h = omega arith
bit_ext_below (suc n) a b ha hb h =
    omega (arith, h 0, bit_ext_below n (a / 2) (b / 2) (omega arith) (omega arith) (λ i. h (suc i)))

-- Numbers with the same digits are equal.
pub bit_ext : (a b : ℕ) → ((i : ℕ) → bit a i ≡ bit b i) → a ≡ b
bit_ext a b h = bit_ext_below (a + b) a b (omega arith) (omega arith) h

pub bit-xor : (a b i : ℕ) → bit (bit_xor a b) i ≡ (bit a i + bit b i) % 2
unfolding bit
bit-xor a b zero = omega (arith, bit_xor_step a b)
bit-xor a b (suc i) =
    let half : bit_xor a b / 2 ≡ bit_xor (a / 2) (b / 2) = omega (arith, bit_xor_step a b) in
    rw half (bit-xor (a / 2) (b / 2) i)

pub bit-or : (a b i : ℕ) → bit (bit_or a b) i ≡ max (bit a i) (bit b i)
unfolding bit
bit-or a b zero = omega (arith, bit_or_step a b)
bit-or a b (suc i) =
    let half : bit_or a b / 2 ≡ bit_or (a / 2) (b / 2) = omega (arith, bit_or_step a b) in
    rw half (bit-or (a / 2) (b / 2) i)

pub bit-and : (a b i : ℕ) → bit (bit_and a b) i ≡ min (bit a i) (bit b i)
unfolding bit
bit-and a b zero = omega (arith, bit_and_step a b)
bit-and a b (suc i) =
    let half : bit_and a b / 2 ≡ bit_and (a / 2) (b / 2) = omega (arith, bit_and_step a b) in
    rw half (bit-and (a / 2) (b / 2) i)

-- x << k.
pub bit-shl : (a k i : ℕ) → bit (a * 2 ^ k) i ≡ (if ltb i k then 0 else bit a (i - k))
unfolding bit
bit-shl a zero i =
    let whole : a * 1 ≡ a = omega arith in
    let stay : i - 0 ≡ i = omega arith in rw (whole, stay) (ground arith)
bit-shl a (suc k) zero = ground (arith, ap (λ (t : ℕ). a * t) (pow-suc 2 k))
bit-shl a (suc k) (suc i) =
    let half : a * 2 ^ suc k / 2 ≡ a * 2 ^ k = omega (arith, ap (λ (t : ℕ). a * t) (pow-suc 2 k)) in
    let same : suc i - suc k ≡ i - k = omega arith in
    rw half (rw (bit-shl a k i, same) (ground arith))

-- x >> k.
pub bit-shr : (a k i : ℕ) → bit (a / 2 ^ k) i ≡ bit a (i + k)
unfolding bit
bit-shr a zero i = rw (div-one, add-zero) refl
bit-shr a (suc k) i = rw (shift, add-suc) (bit-shr (a / 2) k i)
  where
    shift : a / 2 ^ suc k ≡ a / 2 / 2 ^ k
    shift = sym (div-div-eq-div-mul a 2 (2 ^ k) ∙ ap (λ t. a / t) (sym (pow-succ' 2 k)))

mod-double : (a m : ℕ) → 0 < m → a % (2 * m) ≡ a / 2 % m * 2 + a % 2
mod-double a m h =
    let r = a / 2 % m * 2 + a % 2 in
    let small : r < 2 * m = omega (arith, mod-lt (a / 2) h) in
    let split : a ≡ 2 * m * (a / 2 / m) + r = omega (arith, div-add-mod (a / 2) m) in
    ap (λ t. t % (2 * m)) split ∙ mul-add-mod_self_left (2 * m) (a / 2 / m) r ∙ mod-eq_of_lt small

mod-pow-suc : (a k : ℕ) → a % 2 ^ suc k ≡ a / 2 % 2 ^ k * 2 + a % 2
mod-pow-suc a k = rw (pow-succ' 2 k) (mod-double a (2 ^ k) (one-le-pow k 2 (omega arith)))

-- x % 2 ^ k.
pub bit-mod : (a k i : ℕ) → bit (a % 2 ^ k) i ≡ (if ltb i k then bit a i else 0)
unfolding bit
bit-mod a zero i = rw mod-one (ground (arith, bit-zero i))
bit-mod a (suc k) zero = ground (arith, mod-pow-suc a k)
bit-mod a (suc k) (suc i) =
    let half : a % 2 ^ suc k / 2 ≡ a / 2 % 2 ^ k = omega (arith, mod-pow-suc a k) in
    rw half (rw (bit-mod (a / 2) k i) (ground arith))

-- A number of `k` digits has no further ones, and the other way round.
pub bit_above : (a k i : ℕ) → a < 2 ^ k → k ≤ i → bit a i ≡ 0
bit_above a k i small h = rw (← mod-eq_of_lt small) (bit-mod a k i ∙ ground arith)

pub lt_of_bits : (a k : ℕ) → ((i : ℕ) → k ≤ i → bit a i ≡ 0) → a < 2 ^ k
lt_of_bits a k h =
    let cut : a % 2 ^ k ≡ a = bit_ext _ _ (λ i. bit-mod a k i ∙ ground (arith, h i)) in
    omega (arith, cut, mod-lt a (one-le-pow k 2 (omega arith)))
