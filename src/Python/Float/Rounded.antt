-- ===== src/Python/Float/Rounded.antt =====
-- Rounding: the exponent is the least that fits, and the result is the nearer of the two magnitudes
-- around the number.
use native.Mathlib.Nat.{
  pow-suc, one-le-pow, div-add-mod', mod-lt, mul-pos, le-div_iff_mul-le, div-lt_iff_lt-mul,
}
use umash.Prelude.{
  ℕ, zero, suc, ◌+◌, ◌*◌, ◌/◌, ◌%◌, ◌^◌, ◌≤◌, ◌<◌, ◌≡◌, refl, sym, ap, ◌∙◌, ◌⊎◌, inl, inr,
  Bool-cases, ltb, ltb→lt, min, arith,
}
use umash.Python.Float.Round.{units, exponent, round_half_even, round_ratio, infinite}
use umash.Python.Float.Units.{IsScaled, units-here, units-above}

-- What the exponent is: the least scale, unless the fuel was used up.
pub record IsExponent (fuel num den e : ℕ) : Type 0 where
  pub at_most : e ≤ fuel
  pub enough : e < fuel → num < 2 ^ 53 * (den * 2 ^ e)
  pub least : (e ≡ 0) ⊎ (2 ^ 52 * (den * 2 ^ e) ≤ num)

doubled : (den e : ℕ) → 2 * den * 2 ^ e ≡ den * 2 ^ suc e
doubled den e = rw (pow-suc 2 e) (grind arith)

IsExponent-suc :
    (fuel num den e : ℕ)
    → 2 ^ 53 * den ≤ num
    → IsExponent fuel num (2 * den) e
    → IsExponent (suc fuel) num den (suc e)
IsExponent-suc fuel num den e big h = record {
  at_most = omega (arith, h.at_most);
  enough = λ l. rw (sym (doubled den e)) (h.enough (omega arith));
  least = inr (elim h.least [ inl z ↦ rw z (omega arith) | inr l ↦ rw (sym (doubled den e)) l ]);
}

pub exponent_lem : (fuel num den : ℕ) → IsExponent fuel num den (exponent fuel num den)
unfolding exponent
exponent_lem zero num den = record {
  at_most = omega arith;
  enough = λ l. omega arith;
  least = inl refl;
}
exponent_lem (suc fuel) num den = elim (Bool-cases (ltb num (2 ^ 53 * den))) [
  | inl h ↦
      rw (h, exponent)
        (record {
          at_most = omega arith;
          enough = λ l. omega (arith, ltb→lt num (2 ^ 53 * den) h);
          least = inl refl;
        })
  | inr h ↦
      rw (h, exponent)
        (IsExponent-suc fuel num den (exponent fuel num (2 * den)) (ground arith)
          (exponent_lem fuel num (2 * den)))
]

-- num / den is between a magnitude's value and the next one's, and `m` is the nearer of the two.
pub record IsRounded (num den m : ℕ) : Type 0 where
  pub floor : ℕ
  pub from_below : units floor * den ≤ num
  pub from_above : num < units (suc floor) * den
  pub nearer :
      ((m ≡ floor) × (2 * num ≤ units floor * den + units (suc floor) * den))
      ⊎ ((m ≡ suc floor) × (units floor * den + units (suc floor) * den ≤ 2 * num))

-- The two roundings of a quotient.
half_even_cases :
    (num den : ℕ)
    → ((round_half_even num den ≡ num / den) × (2 * (num % den) ≤ den))
      ⊎ ((round_half_even num den ≡ suc (num / den)) × (den ≤ 2 * (num % den)))
unfolding round_half_even
half_even_cases num den = ground arith

scaled_pos : (den e : ℕ) → 0 < den → 0 < den * 2 ^ e
scaled_pos den e h = mul-pos h (one-le-pow e 2 (omega arith))

-- The quotient is a significand when the exponent is not the end of the fuel.
quotient-IsScaled :
    (num den e : ℕ)
    → 0 < den
    → IsExponent 2046 num den e
    → e * 2 ^ 52 + round_half_even num (den * 2 ^ e) < infinite
    → IsScaled e (num / (den * 2 ^ e))
quotient-IsScaled num den e pos h small =
    let least : (e ≡ 0) ⊎ (2 ^ 52 ≤ num / (den * 2 ^ e)) = elim h.least [
      | inl z ↦ inl z
      | inr l ↦ inr ((le-div_iff_mul-le (scaled_pos den e pos)).1 l)
    ] in
    let inside : e < 2046 = omega (arith, h.at_most, half_even_cases num (den * 2 ^ e)) in
    record {
      below = (div-lt_iff_lt-mul (scaled_pos den e pos)).1 (h.enough inside);
      normal_or_low = least;
    }

unscaled : (q e den : ℕ) → q * 2 ^ e * den ≡ q * (den * 2 ^ e)
unscaled q e den = grind arith

IsRounded-at :
    (num den e : ℕ)
    → 0 < den
    → IsScaled e (num / (den * 2 ^ e))
    → IsRounded num den (e * 2 ^ 52 + round_half_even num (den * 2 ^ e))
IsRounded-at num den e pos h =
    let q = num / (den * 2 ^ e) in
    let here : units (e * 2 ^ 52 + q) * den ≡ q * (den * 2 ^ e) =
      ap (λ t. t * den) (units-here e q h) ∙ unscaled q e den in
    let above : units (suc (e * 2 ^ 52 + q)) * den ≡ suc q * (den * 2 ^ e) =
      ap (λ t. t * den) (units-above e q h) ∙ unscaled (suc q) e den in
    let parts : q * (den * 2 ^ e) + num % (den * 2 ^ e) ≡ num = div-add-mod' num (den * 2 ^ e) in
    let rest : num % (den * 2 ^ e) < den * 2 ^ e = mod-lt num (scaled_pos den e pos) in
    record {
      floor = e * 2 ^ 52 + q;
      from_below = omega arith;
      from_above = omega arith;
      nearer = elim (half_even_cases num (den * 2 ^ e)) [
        | inl c ↦ inl (omega (arith, c.0), omega (arith, c.1))
        | inr c ↦ inr (omega (arith, c.0), omega (arith, c.1))
      ];
    }

-- Where the result is finite, round_ratio rounds.
pub round_ratio-IsRounded :
    (num den : ℕ)
    → 0 < den
    → round_ratio num den < infinite
    → IsRounded num den (round_ratio num den)
unfolding round_ratio
round_ratio-IsRounded num den pos finite =
    let e = exponent 2046 num den in
    let unclipped : min infinite (e * 2 ^ 52 + round_half_even num (den * 2 ^ e))
        ≡ e * 2 ^ 52 + round_half_even num (den * 2 ^ e) =
      omega arith in
    rw unclipped (
      IsRounded-at num den e pos
        (quotient-IsScaled num den e pos (exponent_lem 2046 num den) (omega arith)))

pub round_ratio_finite : (num den : ℕ) → round_ratio num den ≤ infinite
unfolding round_ratio
round_ratio_finite num den = omega arith
