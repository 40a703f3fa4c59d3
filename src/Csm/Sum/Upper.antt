-- ===== src/Csm/Sum/Upper.antt =====
-- The rounded sums of t/csm.py: a float above a rounded sum is an upper bound of the exact one.
use umash.Prelude.{
  ℕ, zero, suc, ◌*◌, ◌≤◌, ◌<◌, ◌≡◌, refl, ap, subst, ◌∙◌, Bool, true, false, ◌&&◌, arith,
}
use umash.Python.{ok}
use umash.Python.Integer.{ℤ, pos, negsuc, ◌+ℤ◌, ◌≤ℤ◌}
use umash.Python.Float.{
  Float, positive, is_infinite, value, of_value, add, add_finite, units, infinite, round_ratio,
}
use umash.Python.Float.Rounded.{IsRounded, round_ratio-IsRounded}
use umash.Python.Float.Ordered.{IsFinite, finite-not_nan}
use umash.Python.Float.Nearest.{IsRounded-above, IsRounded-below}
use umash.Csm.Ulps.{next}
use umash.Csm.Ulps.Bits.{negated}
use umash.Csm.Ulps.Steps.{next-positive, next-negated_zero, next-negated-suc}

finite-not_infinite : (x : Float) → IsFinite x → is_infinite x ≡ false
unfolding IsFinite
finite-not_infinite x h = ground arith

pub add-add_finite : (x y : Float) → IsFinite x → IsFinite y → add x y ≡ add_finite x y
unfolding add
add-add_finite x y hx hy =
    rw
      (finite-not_nan x hx, finite-not_nan y hy, finite-not_infinite x hx, finite-not_infinite y hy)
      refl

next-rounded_up :
    (n : ℕ)
    → round_ratio (suc n) 1 < infinite
    → (z : Float) × (next (positive (round_ratio (suc n) 1)) 1 ≡ ok z) × (pos (suc n) ≤ℤ value z)
next-rounded_up n h =
    let m = round_ratio (suc n) 1 in
    let above =
      IsRounded-above (suc n) 1 m (omega arith) (round_ratio-IsRounded (suc n) 1 (omega arith) h) in
    (positive (suc m), next-positive m (omega arith), omega arith)

next-rounded_down_at :
    (n m : ℕ)
    → m < infinite
    → ((k : ℕ) → m ≡ suc k → units k * 1 ≤ suc n)
    → (z : Float) × (next (negated m) 1 ≡ ok z) × (negsuc n ≤ℤ value z)
next-rounded_down_at n zero h below = (positive 0, next-negated_zero, omega arith)
next-rounded_down_at n (suc k) h below =
    let bound : units k * 1 ≤ suc n = below k refl in
    (negated k, next-negated-suc k (omega arith), ground arith)

next-rounded_down :
    (n : ℕ)
    → round_ratio (suc n) 1 < infinite
    → (z : Float) × (next (negated (round_ratio (suc n) 1)) 1 ≡ ok z) × (negsuc n ≤ℤ value z)
next-rounded_down n h = next-rounded_down_at n (round_ratio (suc n) 1) h (λ k e.
    IsRounded-below (suc n) 1 k (omega arith)
      (subst (IsRounded (suc n) 1) e (round_ratio-IsRounded (suc n) 1 (omega arith) h)))

-- next of a rounded value is at least the exact one.
pub next-of_value :
    (s : Bool) (t : ℤ)
    → IsFinite (of_value s t)
    → (z : Float) × (next (of_value s t) 1 ≡ ok z) × (t ≤ℤ value z)
unfolding of_value IsFinite
next-of_value false (pos zero) h = (positive 1, next-positive 0 (omega arith), omega arith)
next-of_value true (pos zero) h = (positive 0, next-negated_zero, omega arith)
next-of_value s (pos (suc n)) h = next-rounded_up n h
next-of_value s (negsuc n) h = next-rounded_down n h

-- next(x + y) is at least the exact sum, if x + y does not overflow.
pub next-add_upper :
    (x y : Float)
    → IsFinite x
    → IsFinite y
    → IsFinite (add x y)
    → (z : Float) × (next (add x y) 1 ≡ ok z) × (value x +ℤ value y ≤ℤ value z)
unfolding add_finite
next-add_upper x y hx hy h =
    let e : add x y ≡ of_value (x.negative && y.negative) (value x +ℤ value y) =
      add-add_finite x y hx hy in
    let finite : IsFinite (of_value (x.negative && y.negative) (value x +ℤ value y)) =
      subst IsFinite e h in
    let (z, there, bound) = next-of_value (x.negative && y.negative) (value x +ℤ value y) finite in
    (z, ap (λ t. next t 1) e ∙ there, bound)
