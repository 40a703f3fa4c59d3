-- ===== src/Csm/Sum/Bound.antt =====
-- sum_up returns an upper bound of the exact sum.
use umash.Prelude.{
  ◌≤◌, ◌≡◌, refl, sym, subst, inl, inr, true, false, Bool-cases, List, [], ◌∷◌, arith,
}
use umash.Python.{Result, ok, raise, ◌>>=◌, Returns}
use umash.Python.Integer.{ℤ, pos, ◌+ℤ◌, ◌≤ℤ◌, int_laws}
use umash.Python.Float.{Float, positive, value, add, sub, flt, fle, min_float, abs}
use umash.Python.Float.Units.{units_low}
use umash.Python.Float.Ordered.{IsFinite, fle-value}
use umash.Csm.Sum.{
  dekker_sum, adjust_term, sum_update_ordered, sum_update_up, finish_bound, sum_update_finish,
  sum_loop, sum_up,
}
use umash.Csm.Sum.Upper.{next-add_upper}
use umash.Csm.Sum.Finish.{zero-IsFinite, sum_update_finish-upper}
use umash.Csm.Sum.Dekker.{dekker_sum_exact}

-- The adjusted term is at least the exact sum of the term and the compensation.
adjust_term-upper :
    (compensation term : Float)
    → IsFinite compensation
    → IsFinite term
    → IsFinite (add term compensation)
    → (t : Float) × (adjust_term compensation term ≡ ok t)
      × (value term +ℤ value compensation ≤ℤ value t)
unfolding adjust_term min_float
adjust_term-upper compensation term hc ht finite =
    let (shifted, there, upper) = next-add_upper term compensation ht hc finite in
    elim (Bool-cases (fle compensation (positive 0))) [
      | inr h ↦ rw (there, h) (shifted, refl, upper)
      | inl h ↦
          let low : value compensation ≤ℤ value (positive 0) =
            (fle-value compensation (positive 0) hc zero-IsFinite).0 h in
          let term_upper : value term +ℤ value compensation ≤ℤ value term =
            omega (int_laws, low, units_low 0 (omega arith)) in
          elim (Bool-cases (flt shifted term)) [
            | inl k ↦ rw (there, h, k) (shifted, refl, upper)
            | inr k ↦ rw (there, h, k) (term, refl, term_upper)
          ]
    ]

-- Nothing overflows in one step, and the adjusted term has no greater magnitude than the accumulator.
pub record StepFits (acc compensation term : Float) : Type 0 where
  pub acc_finite : IsFinite acc
  pub compensation_finite : IsFinite compensation
  pub term_finite : IsFinite term
  pub shifted_finite : IsFinite (add term compensation)
  pub sum_fits :
      (t : Float)
      → adjust_term compensation term ≡ ok t
      → IsFinite t
        × (t.magnitude ≤ acc.magnitude)
        × IsFinite (add acc t)
        × IsFinite (sub (add acc t) acc)
        × IsFinite (sub t (sub (add acc t) acc))

-- The exact value of an accumulator.
abbrev pub worth : Float × Float → ℤ
worth accumulator = value (accumulator.0) +ℤ value (accumulator.1)

sum_update_ordered-upper :
    (acc compensation term : Float)
    → StepFits acc compensation term
    → (after : Float × Float) × (sum_update_ordered acc compensation term ≡ ok after)
      × (value acc +ℤ value compensation +ℤ value term ≤ℤ worth after)
unfolding sum_update_ordered
sum_update_ordered-upper acc compensation term h =
    let (t, there, upper) =
      adjust_term-upper compensation term h.compensation_finite h.term_finite h.shifted_finite in
    let (ht, le, hx, hv, hy) = h.sum_fits t there in
    let exact : worth (dekker_sum acc t) ≡ value acc +ℤ value t =
      dekker_sum_exact acc t h.acc_finite ht le hx hv hy in
    let total : value acc +ℤ value compensation +ℤ value term ≤ℤ value acc +ℤ value t =
      omega (int_laws, upper) in
    rw there (
      dekker_sum acc t,
      refl,
      subst (λ i. value acc +ℤ value compensation +ℤ value term ≤ℤ i) (sym exact) total,
    )

-- The same of a step of sum_update_up, which puts the two terms in order.
unfoldable pub UpdateFits : Float × Float → Float → Type 0
UpdateFits accumulator term = elim (flt (abs (accumulator.0)) (abs term)) [
  | true ↦ StepFits term (accumulator.1) (accumulator.0)
  | false ↦ StepFits (accumulator.0) (accumulator.1) term
]

sum_update_up-upper :
    (accumulator : Float × Float) (term : Float)
    → UpdateFits accumulator term
    → (after : Float × Float) × (sum_update_up accumulator term ≡ ok after)
      × (worth accumulator +ℤ value term ≤ℤ worth after)
unfolding sum_update_up UpdateFits
sum_update_up-upper accumulator term h = elim (Bool-cases (flt (abs (accumulator.0)) (abs term))) [
  | inl k ↦
      let (after, there, upper) =
        sum_update_ordered-upper term (accumulator.1) (accumulator.0) (rw (k, UpdateFits) at h) in
      rw k (after, there, omega (int_laws, upper))
  | inr k ↦
      rw k (sum_update_ordered-upper (accumulator.0) (accumulator.1) term (rw (k, UpdateFits) at h))
]

-- Nothing overflows in the finish.
pub record FinishFits (accumulator : Float × Float) : Type 0 where
  pub acc_finite : IsFinite (accumulator.0)
  pub compensation_finite : IsFinite (accumulator.1)
  pub sum_finite : IsFinite (add (accumulator.0) (accumulator.1))
  pub bound_fits :
      (z : Float)
      → finish_bound (accumulator.0) (accumulator.1) ≡ ok z
      → IsFinite z × IsFinite (sub z (accumulator.0))

-- The same of all steps of the loop, and of the finish.
unfoldable pub LoopFits : Float × Float → List Float → Type 0
LoopFits accumulator [] = FinishFits accumulator
LoopFits accumulator (term ∷ values) =
    UpdateFits accumulator term
    × ((after : Float × Float) → sum_update_up accumulator term ≡ ok after → LoopFits after values)

-- The exact sum.
unfoldable pub exact_sum : List Float → ℤ
exact_sum [] = pos 0
exact_sum (term ∷ values) = value term +ℤ exact_sum values

sum_loop-upper :
    (accumulator : Float × Float) (values : List Float)
    → LoopFits accumulator values
    → (after : Float × Float) × (sum_loop accumulator values ≡ ok after)
      × (worth accumulator +ℤ exact_sum values ≤ℤ worth after)
      × FinishFits after
unfolding sum_loop LoopFits exact_sum
sum_loop-upper accumulator [] h = (accumulator, refl, omega int_laws, h)
sum_loop-upper accumulator (term ∷ values) h =
    let (middle, first, upper) = sum_update_up-upper accumulator term (h.0) in
    let (after, there, rest, fits) = sum_loop-upper middle values (h.1 middle first) in
    rw first (after, there, omega (int_laws, upper, rest), fits)

Returns-map :
    {A B : Type 0} (P : A → Type 0) (Q : B → Type 0) (f : A → B) (r : Result A)
    → Returns r P
    → ((a : A) → P a → Q (f a))
    → Returns (r >>= λ a. ok (f a)) Q
Returns-map P Q f (ok a) h k = k a h
Returns-map P Q f (raise e) h k = h

-- As long as nothing overflows, and no adjusted term has a greater magnitude than the accumulator that it
-- is added to, sum_up returns, and what it returns is at least the exact sum of the values.
pub sum_up-upper :
    (values : List Float)
    → LoopFits (positive 0, positive 0) values
    → Returns (sum_up values) (λ bound. exact_sum values ≤ℤ value bound)
unfolding sum_up
sum_up-upper values h =
    let (after, there, upper, fits) = sum_loop-upper (positive 0, positive 0) values h in
    let finished =
      sum_update_finish-upper (after.0) (after.1) fits.acc_finite fits.compensation_finite
        fits.sum_finite fits.bound_fits in
    rw there (
      Returns-map (λ r. worth after ≤ℤ value (r.0)) (λ bound. exact_sum values ≤ℤ value bound)
        (λ r. r.0) (sum_update_finish after) finished
        (λ r k. omega (int_laws, upper, k, units_low 0 (omega arith))))
