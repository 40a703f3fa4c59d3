-- ===== src/Csm/Sum/Finish.antt =====
-- sum_update_finish of t/csm.py: its assertion holds, and it returns an upper bound.
use umash.Prelude.{◌≡◌, refl, sym, subst, inl, inr, true, false, Bool-cases, not, ◌&&◌, arith}
use umash.Python.{ok, Returns}
use umash.Python.Integer.{◌+ℤ◌, ◌≤ℤ◌, pos_part, neg_part, with_sign, int_laws, sign_laws}
use umash.Python.Float.{
  Float, positive, value, order_key, of_value, neg, add, add_finite, sub, flt, fle, min_float,
  units,
}
use umash.Python.Float.Units.{units_low}
use umash.Python.Float.Ordered.{IsFinite, fle-value, flt-value, value-order_key, of_value_over}
use umash.Csm.Sum.{finish_bound, sum_update_finish}
use umash.Csm.Sum.Upper.{add-add_finite, next-add_upper}

pub value_parts-neg :
    (x : Float)
    → (pos_part (value (neg x)) ≡ neg_part (value x))
      × (neg_part (value (neg x)) ≡ pos_part (value x))
unfolding neg
value_parts-neg x =
    elim x.negative
      as (λ s.
        (pos_part (with_sign (not s) (units x.magnitude))
          ≡ neg_part (with_sign s (units x.magnitude)))
        × (neg_part (with_sign (not s) (units x.magnitude))
            ≡ pos_part (with_sign s (units x.magnitude)))) [
              | true ↦ (omega sign_laws, omega sign_laws)
              | false ↦ (omega sign_laws, omega sign_laws)
            ]

-- What is at most the exact difference is at most the rounded one.
pub sub_over :
    (c x y : Float)
    → IsFinite c
    → IsFinite x
    → IsFinite y
    → IsFinite (sub x y)
    → value c +ℤ value y ≤ℤ value x
    → fle c (sub x y) ≡ true
unfolding sub add_finite IsFinite neg
sub_over c x y hc hx hy finite h =
    let s = x.negative && (neg y).negative in
    let e : add x (neg y) ≡ of_value s (value x +ℤ value (neg y)) =
      add-add_finite x (neg y) hx hy in
    let below : value c ≤ℤ value x +ℤ value (neg y) = omega (int_laws, value_parts-neg y, h) in
    let ordered : order_key c ≤ℤ order_key (of_value s (value x +ℤ value (neg y))) =
      of_value_over c s (value x +ℤ value (neg y)) below (subst IsFinite e finite) in
    (fle-value c (sub x y) hc finite).1
      ((value-order_key c (sub x y)).1 (subst (λ z. order_key c ≤ℤ order_key z) (sym e) ordered))

pub zero-IsFinite : IsFinite (positive 0)
unfolding IsFinite
zero-IsFinite = omega arith

-- `bound` is an upper bound on both branches.
finish_bound-upper :
    (acc compensation : Float)
    → IsFinite acc
    → IsFinite compensation
    → IsFinite (add acc compensation)
    → (z : Float) × (finish_bound acc compensation ≡ ok z)
      × (value acc +ℤ value compensation ≤ℤ value z)
unfolding finish_bound min_float
finish_bound-upper acc compensation ha hc finite =
    let (above, there, upper) = next-add_upper acc compensation ha hc finite in
    elim (Bool-cases (flt (positive 0) compensation)) [
      | inl h ↦ rw (there, h) (above, refl, upper)
      | inr h ↦
          let low : value compensation ≤ℤ value (positive 0) =
            (flt-value (positive 0) compensation zero-IsFinite hc).0 h in
          let acc_upper : value acc +ℤ value compensation ≤ℤ value acc =
            omega (int_laws, low, units_low 0 (omega arith)) in
          elim (Bool-cases (flt above acc)) [
            | inl k ↦ rw (there, h, k) (above, refl, upper)
            | inr k ↦ rw (there, h, k) (acc, refl, acc_upper)
          ]
    ]

-- As long as nothing overflows, the assertion of sum_update_finish holds, and the value that it returns
-- first is at least the exact sum of the two parts of the accumulator.
pub sum_update_finish-upper :
    (acc compensation : Float)
    → IsFinite acc
    → IsFinite compensation
    → IsFinite (add acc compensation)
    → ((z : Float) → finish_bound acc compensation ≡ ok z → IsFinite z × IsFinite (sub z acc))
    → Returns
        (sum_update_finish (acc, compensation))
        (λ r. value acc +ℤ value compensation ≤ℤ value (r.0))
unfolding sum_update_finish
sum_update_finish-upper acc compensation ha hc finite fits =
    let (z, there, upper) = finish_bound-upper acc compensation ha hc finite in
    let (hz, hd) = fits z there in
    let asserted : fle compensation (sub z acc) ≡ true =
      sub_over compensation z acc hc hz ha hd (omega (int_laws, upper)) in
    rw (there, asserted) upper
