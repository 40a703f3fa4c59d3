-- ===== src/Python/Float/Round.antt =====
-- The magnitudes of IEEE 754 doubles: the exact value of one, and rounding to the nearest, ties to
-- the even one.
use umash.Prelude.{
  ℕ, zero, suc, ◌+◌, ◌*◌, ◌/◌, ◌%◌, ◌^◌, ◌==◌, ltb, min, true, false, ◌&&◌, ◌||◌, if◌then◌else◌,
}

-- The magnitude of the infinities; that of a NaN is greater.
abbrev pub infinite : ℕ
infinite = 2047 * 2 ^ 52

-- The exact value of an exponent and a fraction, in units of 2 ** -1074; exponent 0 is that of the
-- subnormal numbers.
unfoldable pub scaled_value : ℕ → ℕ → ℕ
scaled_value zero fraction = fraction
scaled_value (suc e) fraction = (2 ^ 52 + fraction) * 2 ^ e

-- The exact value of a finite magnitude: 52 bits of fraction under 11 bits of exponent.
unfoldable pub units : ℕ → ℕ
units m = scaled_value (m / 2 ^ 52) (m % 2 ^ 52)

-- The least e with num / (den * 2 ** e) below 2 ** 53; the fuel is where all finite exponents end.
unfoldable pub exponent : ℕ → ℕ → ℕ → ℕ
exponent zero num den = 0
exponent (suc fuel) num den = elim (ltb num (2 ^ 53 * den)) [
  | true ↦ 0
  | false ↦ suc (exponent fuel num (2 * den))
]

-- num / den, rounded to an integer.
unfoldable pub round_half_even : ℕ → ℕ → ℕ
round_half_even num den =
    let quotient = num / den in
    let rest = num % den in
    if ltb den (2 * rest) || (2 * rest == den && quotient % 2 == 1) then quotient + 1 else quotient

-- The magnitude nearest to num / den units. A significand that is rounded up to 2 ** 53 is carried
-- into the exponent.
unfoldable pub round_ratio : ℕ → ℕ → ℕ
round_ratio num den =
    let e = exponent 2046 num den in min infinite (e * 2 ^ 52 + round_half_even num (den * 2 ^ e))
