-- ===== src/Sampler/Parallel/Clamp.antt =====
-- The delays of _generate_in_parallel lie between their limits, whatever the clock says.
use umash.Prelude.{
  ℕ, zero, suc, ◌*◌, ◌^◌, ◌≤◌, ◌<◌, ◌≡◌, refl, sym, subst, inl, inr, Bool, true, false, Bool-cases,
  not, ◌&&◌, arith,
}
use umash.Python.Integer.{ℤ, pos, negsuc, ltb_ℤ, leb_ℤ, ◌+ℤ◌}
use umash.Python.Float.{
  Float, is_nan, infinite, flt, fle, order_key, value, of_value, add_finite, sub, neg, mul,
  round_ratio, units, of_ratio, of_int, exponent, round_half_even,
}
use umash.Python.Float.Ordered.{IsFinite}
use umash.Python.Float.Rounded.{round_ratio_finite}
use umash.Csm.Sum.Upper.{add-add_finite}
use umash.Sampler.Parallel.{
  clamp, unit_delay, poll_delay, proportional_delay, poll_proportional_delay, min_delay, max_delay,
  poll_min_delay, poll_max_delay,
}

IsNumber : Float → Type 0
IsNumber x = is_nan x ≡ false

leb_of_not_ltb : (i j : ℤ) → ltb_ℤ i j ≡ false → leb_ℤ j i ≡ true
leb_of_not_ltb i j h = ground arith

-- Two numbers are in order.
fle_of_not_flt : (x y : Float) → IsNumber x → IsNumber y → flt x y ≡ false → fle y x ≡ true
unfolding IsNumber flt fle
fle_of_not_flt x y hx hy h = ground (arith, leb_of_not_ltb (order_key x) (order_key y))

fle_refl : (x : Float) → IsNumber x → fle x x ≡ true
unfolding IsNumber fle
fle_refl x h = ground arith

-- A clamped number lies between the limits.
clamp-IsBetween :
    (low high x : Float)
    → IsNumber low
    → IsNumber high
    → IsNumber x
    → fle low high ≡ true
    → (fle low (clamp low high x) ≡ true) × (fle (clamp low high x) high ≡ true)
unfolding clamp
clamp-IsBetween low high x hl hh hx ordered = elim (Bool-cases (flt x low)) [
  | inl k ↦ elim (Bool-cases (flt high low)) [
    | inl j ↦ rw (k, j) (ordered, fle_refl high hh)
    | inr j ↦ rw (k, j) (fle_refl low hl, fle_of_not_flt high low hh hl j)
  ]
  | inr k ↦ elim (Bool-cases (flt high x)) [
    | inl j ↦ rw (k, j) (ordered, fle_refl high hh)
    | inr j ↦ rw (k, j) (fle_of_not_flt x low hx hl k, fle_of_not_flt high x hh hx j)
  ]
]

small-IsNumber :
    (negative : Bool) (m : ℕ)
    → m ≤ infinite
    → IsNumber (record { negative = negative; magnitude = m })
unfolding IsNumber
small-IsNumber negative m h = ground arith

of_value-IsNumber : (s : Bool) (i : ℤ) → IsNumber (of_value s i)
unfolding of_value
of_value-IsNumber s (pos zero) = small-IsNumber s 0 (omega arith)
of_value-IsNumber s (pos (suc n)) =
    small-IsNumber false (round_ratio (suc n) 1) (round_ratio_finite (suc n) 1)
of_value-IsNumber s (negsuc n) =
    small-IsNumber true (round_ratio (suc n) 1) (round_ratio_finite (suc n) 1)

-- The difference of two finite floats is a number.
sub-IsNumber : (x y : Float) → IsFinite x → IsFinite y → IsNumber (sub x y)
unfolding IsFinite sub neg add_finite
sub-IsNumber x y hx hy =
    subst IsNumber (sym (add-add_finite x (neg y) hx hy))
      (of_value-IsNumber (x.negative && not y.negative) (value x +ℤ value (neg y)))

-- So is the product with a positive finite one.
mul-IsNumber : (p x : Float) → IsFinite p → 0 < p.magnitude → IsNumber x → IsNumber (mul p x)
unfolding IsFinite IsNumber mul
mul-IsNumber p x hp positive hx =
    ground (arith, round_ratio_finite (units p.magnitude * units x.magnitude) (2 ^ 1074))

-- A delay is within its limits.
abbrev pub IsWithin : Float → Float → Float → Type 0
IsWithin low high delay = (fle low delay ≡ true) × (fle delay high ≡ true)

pub unit_delay-IsWithin :
    (begin now : Float)
    → IsFinite begin
    → IsFinite now
    → IsWithin min_delay max_delay (unit_delay begin now)
unfolding unit_delay IsNumber IsFinite fle of_ratio of_int round_ratio exponent round_half_even
unit_delay-IsWithin begin now hb hn =
    clamp-IsBetween min_delay max_delay (mul proportional_delay (sub now begin)) refl refl
      (mul-IsNumber proportional_delay (sub now begin) (omega arith) (omega arith)
        (sub-IsNumber now begin hn hb))
      refl

pub poll_delay-IsWithin :
    (last_change now : Float)
    → IsFinite last_change
    → IsFinite now
    → IsWithin poll_min_delay poll_max_delay (poll_delay last_change now)
unfolding poll_delay IsNumber IsFinite fle of_ratio of_int round_ratio exponent round_half_even
poll_delay-IsWithin last_change now hb hn =
    clamp-IsBetween poll_min_delay poll_max_delay
      (mul poll_proportional_delay (sub now last_change)) refl refl
      (mul-IsNumber poll_proportional_delay (sub now last_change) (omega arith) (omega arith)
        (sub-IsNumber now last_change hn hb))
      refl
