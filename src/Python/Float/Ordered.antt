-- ===== src/Python/Float/Ordered.antt =====
-- The order of the floats is the order of their exact values, and rounding respects it.
use umash.Prelude.{
  ℕ, zero, suc, ◌+◌, ◌-◌, ◌≤◌, ◌<◌, ◌≡◌, ◌↔◌, ap, ◌⊎◌, inl, inr, Bool, true, false, arith,
}
use umash.Python.Integer.{ℤ, pos, negsuc, ◌≤ℤ◌, with_sign, sign_laws}
use umash.Python.Float.{
  Float, positive, is_nan, value, order_key, of_value, fle, flt, units, infinite, round_ratio,
}
use umash.Python.Float.Units.{units_mono, units_low}
use umash.Python.Float.Rounded.{round_ratio-IsRounded}
use umash.Python.Float.Nearest.{IsRounded-over, IsRounded-under}

unfoldable pub IsFinite : Float → Type 0
IsFinite x = x.magnitude < infinite

pub finite-not_nan : (x : Float) → IsFinite x → is_nan x ≡ false
unfolding IsFinite
finite-not_nan x h = ground arith

-- The order of two magnitudes is that of their values, from both sides.
units-order :
    (m n : ℕ)
    → ((m ≤ n) × (units m + (n - m) ≤ units n)) ⊎ ((n ≤ m) × (units n + (m - n) ≤ units m))
units-order m n =
    let cases : (m ≤ n) ⊎ (n ≤ m) = omega arith in
    elim cases [ inl l ↦ inl (l, units_mono m n l) | inr l ↦ inr (l, units_mono n m l) ]

units_zero : units 0 ≡ 0
units_zero = units_low 0 (omega arith)

-- A positive and a negative number, by magnitude and by value.
signed_order :
    (s s' : Bool) (m n : ℕ)
    → (with_sign s (units m) ≤ℤ with_sign s' (units n)) ↔ (with_sign s m ≤ℤ with_sign s' n)
signed_order false false m n = (
  λ h. omega (sign_laws, units-order n m),
  λ h. omega (sign_laws, units_mono m n (omega sign_laws)),
)
signed_order false true m n = (
  (λ h. omega (sign_laws, units_mono 0 n (omega arith), units_mono 0 m (omega arith))),
  λ h.
      let none : m ≡ 0 = omega sign_laws in
      let none' : n ≡ 0 = omega sign_laws in
      omega (sign_laws, units_zero, ap units none, ap units none'),
)
signed_order true false m n = (λ h. omega sign_laws, λ h. omega sign_laws)
signed_order true true m n = (
  λ h. omega (sign_laws, units-order m n),
  λ h. omega (sign_laws, units_mono n m (omega sign_laws)),
)

-- The order by value is the order by the bits.
pub value-order_key : (x y : Float) → (value x ≤ℤ value y) ↔ (order_key x ≤ℤ order_key y)
value-order_key x y = signed_order x.negative y.negative x.magnitude y.magnitude

-- Comparisons of floats that are no NaN compare the exact values.
pub fle-value : (x y : Float) → IsFinite x → IsFinite y → (fle x y ≡ true) ↔ (value x ≤ℤ value y)
unfolding fle
fle-value x y hx hy =
    let order = value-order_key x y in
    rw (finite-not_nan x hx, finite-not_nan y hy)
      (λ h. order.1 (ground arith), λ h. let k = order.0 h in ground arith)

pub flt-value : (x y : Float) → IsFinite x → IsFinite y → (flt x y ≡ false) ↔ (value y ≤ℤ value x)
unfolding flt
flt-value x y hx hy =
    let order = value-order_key y x in
    rw (finite-not_nan x hx, finite-not_nan y hy)
      (λ h. order.1 (ground arith), λ h. let k = order.0 h in ground arith)

-- A float that is at most an exact value is at most its rounding.
over_positive :
    (s : Bool) (m n : ℕ)
    → with_sign s (units m) ≤ℤ pos (suc n)
    → round_ratio (suc n) 1 < infinite
    → with_sign s m ≤ℤ pos (round_ratio (suc n) 1)
over_positive false m n h finite = omega (
  sign_laws,
  IsRounded-over (suc n) 1 (round_ratio (suc n) 1) m
      (round_ratio-IsRounded (suc n) 1 (omega arith) finite) (omega sign_laws),
)
over_positive true m n h finite = omega sign_laws

over_negative :
    (s : Bool) (m n : ℕ)
    → with_sign s (units m) ≤ℤ negsuc n
    → round_ratio (suc n) 1 < infinite
    → with_sign s m ≤ℤ with_sign true (round_ratio (suc n) 1)
over_negative false m n h finite = omega sign_laws
over_negative true m n h finite = omega (
  sign_laws,
  IsRounded-under (suc n) 1 (round_ratio (suc n) 1) m (omega arith)
      (round_ratio-IsRounded (suc n) 1 (omega arith) finite) (omega sign_laws),
)

pub of_value_over :
    (x : Float) (s : Bool) (t : ℤ)
    → value x ≤ℤ t
    → IsFinite (of_value s t)
    → order_key x ≤ℤ order_key (of_value s t)
unfolding IsFinite of_value
of_value_over x false (pos zero) h finite =
    (value-order_key x (positive 0)).0 (omega (arith, h, units_zero))
of_value_over x true (pos zero) h finite =
    (value-order_key x (positive 0)).0 (omega (arith, h, units_zero))
of_value_over x s (pos (suc n)) h finite = over_positive x.negative x.magnitude n h finite
of_value_over x s (negsuc n) h finite = over_negative x.negative x.magnitude n h finite
