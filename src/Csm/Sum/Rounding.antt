-- ===== src/Csm/Sum/Rounding.antt =====
-- The additions of t/csm.py, where the exact result is a float, and the side they round to elsewhere.
use umash.Prelude.{
  ℕ, zero, suc, ◌+◌, ◌*◌, ◌<◌, ◌≡◌, refl, sym, ap, subst, ◌∙◌, inl, Bool, true, false, ◌&&◌, arith,
}
use umash.Python.Integer.{
  ℤ, pos, negsuc, ◌+ℤ◌, ◌-ℤ◌, pos_part, neg_part, with_sign, int_laws, sign_laws,
}
use umash.Python.Float.{
  Float, value, of_value, neg, add, add_finite, sub, units, round_ratio, infinite,
}
use umash.Python.Float.Units.{units_low}
use umash.Python.Float.Ordered.{IsFinite}
use umash.Python.Float.Rounded.{IsRounded, round_ratio-IsRounded}
use umash.Python.Float.Nearest.{IsRounded-exact}
use umash.Python.Float.Multiples.{Representable}
use umash.Csm.Sum.Upper.{add-add_finite}
use umash.Csm.Sum.Finish.{value_parts-neg}

abbrev pub size : ℤ → ℕ
size i = pos_part i + neg_part i

-- A rounded value keeps a representable one.
exact_magnitude :
    (n : ℕ) → round_ratio n 1 < infinite → Representable n → units (round_ratio n 1) ≡ n
exact_magnitude n finite r =
    let e : n ≡ units r.magnitude * 1 = omega (arith, r.worth) in
    ap units (
      IsRounded-exact 1 (round_ratio n 1) r.magnitude (omega arith) (
        subst (λ m. IsRounded m 1 (round_ratio n 1)) e
          (round_ratio-IsRounded n 1 (omega arith) finite)))
    ∙ r.worth

of_value_exact :
    (s : Bool) (t : ℤ) → IsFinite (of_value s t) → Representable (size t) → value (of_value s t) ≡ t
unfolding of_value IsFinite
of_value_exact false (pos zero) h r = ap pos (units_low 0 (omega arith))
of_value_exact true (pos zero) h r = ap (with_sign true) (units_low 0 (omega arith))
of_value_exact s (pos (suc n)) h r =
    let e : suc n + 0 ≡ suc n = omega arith in
    ap pos (exact_magnitude (suc n) h (subst Representable e r))
of_value_exact s (negsuc n) h r =
    let e : 0 + suc n ≡ suc n = omega arith in
    ap (with_sign true) (exact_magnitude (suc n) h (subst Representable e r))

-- Where the exact sum is representable, it is the result.
add_exact :
    (u v : Float)
    → IsFinite u
    → IsFinite v
    → IsFinite (add u v)
    → Representable (size (value u +ℤ value v))
    → value (add u v) ≡ value u +ℤ value v
unfolding add_finite
add_exact u v hu hv h r =
    let e : add u v ≡ of_value (u.negative && v.negative) (value u +ℤ value v) =
      add-add_finite u v hu hv in
    ap (λ z. value z) e
    ∙ of_value_exact (u.negative && v.negative) (value u +ℤ value v) (subst IsFinite e h) r

-- A rounded value is on the side of the exact one.
pub record IsSideOf (t : ℤ) (z : Float) : Type 0 where
  pub rounded : IsRounded (size t) 1 z.magnitude
  pub above : neg_part t ≡ 0 → (pos_part (value z) ≡ units z.magnitude) × (neg_part (value z) ≡ 0)
  pub below : pos_part t ≡ 0 → (neg_part (value z) ≡ units z.magnitude) × (pos_part (value z) ≡ 0)

zero-IsRounded : IsRounded 0 1 0
zero-IsRounded = record {
  floor = 0;
  from_below = omega (arith, units_low 0 (omega arith));
  from_above = omega (arith, units_low 1 (omega arith));
  nearer = inl (refl, omega arith);
}

of_value-IsSideOf : (s : Bool) (t : ℤ) → IsFinite (of_value s t) → IsSideOf t (of_value s t)
unfolding of_value IsFinite
of_value-IsSideOf false (pos zero) h = record {
  rounded = zero-IsRounded;
  above = λ k. (refl, refl);
  below = λ k. (omega (arith, units_low 0 (omega arith)), units_low 0 (omega arith));
}
of_value-IsSideOf true (pos zero) h = record {
  rounded = zero-IsRounded;
  above = λ k. omega (sign_laws, units_low 0 (omega arith));
  below = λ k. omega (sign_laws, units_low 0 (omega arith));
}
of_value-IsSideOf s (pos (suc n)) h =
    let e : suc n ≡ suc n + 0 = omega arith in
    record {
      rounded =
          subst (λ m. IsRounded m 1 (round_ratio (suc n) 1)) e
            (round_ratio-IsRounded (suc n) 1 (omega arith) h);
      above = λ k. (refl, refl);
      below = λ k. absurd (omega arith);
    }
of_value-IsSideOf s (negsuc n) h =
    let e : suc n ≡ 0 + suc n = omega arith in
    record {
      rounded =
          subst (λ m. IsRounded m 1 (round_ratio (suc n) 1)) e
            (round_ratio-IsRounded (suc n) 1 (omega arith) h);
      above = λ k. absurd (omega arith);
      below = λ k. omega sign_laws;
    }

plus-neg : (u : ℤ) (v : Float) → u +ℤ value (neg v) ≡ u -ℤ value v
plus-neg u v = omega (int_laws, value_parts-neg v)

-- Where the exact difference is representable, it is the result.
pub sub_exact :
    (u v : Float)
    → IsFinite u
    → IsFinite v
    → IsFinite (sub u v)
    → Representable (size (value u -ℤ value v))
    → value (sub u v) ≡ value u -ℤ value v
unfolding sub neg IsFinite
sub_exact u v hu hv h r =
    add_exact u (neg v) hu hv h (subst (λ t. Representable (size t)) (sym (plus-neg (value u) v)) r)
    ∙ plus-neg (value u) v

pub add-IsSideOf :
    (u v : Float)
    → IsFinite u
    → IsFinite v
    → IsFinite (add u v)
    → IsSideOf (value u +ℤ value v) (add u v)
unfolding add_finite
add-IsSideOf u v hu hv h =
    let e : add u v ≡ of_value (u.negative && v.negative) (value u +ℤ value v) =
      add-add_finite u v hu hv in
    subst (IsSideOf (value u +ℤ value v)) (sym e)
      (of_value-IsSideOf (u.negative && v.negative) (value u +ℤ value v) (subst IsFinite e h))
