-- ===== src/Csm/Sum/Tests.antt =====
-- Runs of the summation of t/csm.py on 0.1 and 0.2.
use umash.Prelude.{◌≤◌, ◌<◌, ◌≡◌, refl, sym, ◌∙◌, subst, [], ◌∷◌, arith}
use umash.Python.{Result, ok, ok_inj, Returns}
use umash.Python.Integer.{◌+ℤ◌, ◌≤ℤ◌, mod_ℤ}
use umash.Python.Float.{
  Float, positive, value, of_value, neg, abs, add, add_finite, sub, flt, fle, min_float, units,
  scaled_value, round_ratio, exponent, round_half_even,
}
use umash.Python.Float.Ordered.{IsFinite}
use umash.Csm.Ulps.{unpack_q, pack_q, float_bits, bits_float, next}
use umash.Csm.Ulps.Bits.{negated}
use umash.Csm.Sum.{dekker_sum, adjust_term, sum_update_ordered, sum_update_up, finish_bound, sum_up}
use umash.Csm.Sum.Dekker.{dekker_sum_exact}
use umash.Csm.Sum.Bound.{StepFits, FinishFits, LoopFits, UpdateFits, exact_sum, sum_up-upper}

-- 0.1 and 0.2.
abbrev tenth : Float
tenth = positive 4591870180066957722

abbrev fifth : Float
fifth = positive 4596373779694328218

tenth-IsFinite : IsFinite tenth
unfolding IsFinite
tenth-IsFinite = omega arith

fifth-IsFinite : IsFinite fifth
unfolding IsFinite
fifth-IsFinite = omega arith

tenth-fifth : add tenth fifth ≡ positive 4599075939470750516
unfolding add add_finite ◌+ℤ◌ of_value units scaled_value round_ratio exponent round_half_even
tenth-fifth = refl

three_tenths-IsFinite : IsFinite (positive 4599075939470750516)
unfolding IsFinite
three_tenths-IsFinite = omega arith

sum-IsFinite : IsFinite (add tenth fifth)
sum-IsFinite = subst IsFinite (sym tenth-fifth) three_tenths-IsFinite

-- The bound of the two is the float above 0.1 + 0.2.
finish_bound_there : finish_bound tenth fifth ≡ ok (positive 4599075939470750517)
unfolding finish_bound add add_finite ◌+ℤ◌ of_value units scaled_value round_ratio exponent
    round_half_even next bits_float float_bits unpack_q pack_q mod_ℤ flt
finish_bound_there = refl

difference : sub (positive 4599075939470750517) tenth ≡ positive 4596373779694328221
unfolding sub neg add add_finite ◌+ℤ◌ of_value units scaled_value round_ratio exponent
    round_half_even
difference = refl

difference-IsFinite : IsFinite (positive 4596373779694328221)
unfolding IsFinite
difference-IsFinite = omega arith

bound-IsFinite : IsFinite (positive 4599075939470750517)
unfolding IsFinite
bound-IsFinite = omega arith

bound_fits : (z : Float) → finish_bound tenth fifth ≡ ok z → IsFinite z × IsFinite (sub z tenth)
bound_fits z e =
    let there : positive 4599075939470750517 ≡ z = ok_inj (sym finish_bound_there ∙ e) in
    subst (λ z. IsFinite z × IsFinite (sub z tenth)) there
      (bound-IsFinite, subst IsFinite (sym difference) difference-IsFinite)

-- 0.2 + 0.1, as sum_update_up adds them, has the rounding error -2^-55.
fifth-tenth : add fifth tenth ≡ positive 4599075939470750516
unfolding add add_finite sub neg abs flt ◌+ℤ◌ of_value units scaled_value round_ratio exponent
    round_half_even
fifth-tenth = refl

fifth-tenth-IsFinite : IsFinite (add fifth tenth)
fifth-tenth-IsFinite = subst IsFinite (sym fifth-tenth) three_tenths-IsFinite

gained : sub (add fifth tenth) fifth ≡ positive 4591870180066957724
unfolding add add_finite sub neg abs flt ◌+ℤ◌ of_value units scaled_value round_ratio exponent
    round_half_even
gained = refl

gained-IsFinite : IsFinite (sub (add fifth tenth) fifth)
unfolding IsFinite
gained-IsFinite = subst (λ x. x.magnitude < 9218868437227405312) (sym gained) (omega arith)

lost : sub tenth (sub (add fifth tenth) fifth) ≡ negated 4359484439294640128
unfolding add add_finite sub neg abs flt ◌+ℤ◌ of_value units scaled_value round_ratio exponent
    round_half_even
lost = refl

lost-IsFinite : IsFinite (sub tenth (sub (add fifth tenth) fifth))
unfolding IsFinite
lost-IsFinite = subst (λ x. x.magnitude < 9218868437227405312) (sym lost) (omega arith)

tenth-fifth_le : tenth.magnitude ≤ fifth.magnitude
tenth-fifth_le = omega arith

dekker_sum_exact_example :
    value ((dekker_sum fifth tenth).0) +ℤ value ((dekker_sum fifth tenth).1)
    ≡ value fifth +ℤ value tenth
dekker_sum_exact_example =
    dekker_sum_exact fifth tenth fifth-IsFinite tenth-IsFinite tenth-fifth_le fifth-tenth-IsFinite
      gained-IsFinite lost-IsFinite

-- Nothing fits but what a computation returns.
only :
    {A : Type 0} (P : A → Type 0) {r : Result A} {a : A} → r ≡ ok a → P a → (z : A) → r ≡ ok z → P z
only P e p z h = subst P (ok_inj (sym e ∙ h)) p

zero_IsFinite : IsFinite (positive 0)
unfolding IsFinite
zero_IsFinite = omega arith

-- sum_up(0.1, 0.2): the first term replaces the accumulator, and so does the second.
first_term : adjust_term (positive 0) (positive 0) ≡ ok (positive 0)
unfolding adjust_term add add_finite sub neg abs flt ◌+ℤ◌ of_value units scaled_value round_ratio
    exponent round_half_even next bits_float float_bits unpack_q pack_q mod_ℤ fle min_float
first_term = refl

first_step : sum_update_up (positive 0, positive 0) tenth ≡ ok (tenth, positive 0)
unfolding sum_update_up sum_update_ordered adjust_term dekker_sum add add_finite sub neg abs flt
    ◌+ℤ◌ of_value units scaled_value round_ratio exponent round_half_even next bits_float float_bits
    unpack_q pack_q mod_ℤ fle min_float
first_step = refl

second_term : adjust_term (positive 0) tenth ≡ ok tenth
unfolding adjust_term add add_finite sub neg abs flt ◌+ℤ◌ of_value units scaled_value round_ratio
    exponent round_half_even next bits_float float_bits unpack_q pack_q mod_ℤ fle min_float
second_term = refl

second_step :
    sum_update_up (tenth, positive 0) fifth
    ≡ ok (positive 4599075939470750516, negated 4359484439294640128)
unfolding sum_update_up sum_update_ordered adjust_term dekker_sum add add_finite sub neg abs flt
    ◌+ℤ◌ of_value units scaled_value round_ratio exponent round_half_even next bits_float float_bits
    unpack_q pack_q mod_ℤ fle min_float
second_step = refl

first_fits : StepFits tenth (positive 0) (positive 0)
unfolding IsFinite add add_finite sub neg abs flt ◌+ℤ◌ of_value units scaled_value round_ratio
    exponent round_half_even next bits_float float_bits unpack_q pack_q mod_ℤ fle min_float
first_fits = record {
  acc_finite = tenth-IsFinite;
  compensation_finite = zero_IsFinite;
  term_finite = zero_IsFinite;
  shifted_finite = zero_IsFinite;
  sum_fits =
      only
        (λ t.
          IsFinite t
          × (t.magnitude ≤ tenth.magnitude)
          × IsFinite (add tenth t)
          × IsFinite (sub (add tenth t) tenth)
          × IsFinite (sub t (sub (add tenth t) tenth)))
        first_term (zero_IsFinite, omega arith, tenth-IsFinite, zero_IsFinite, zero_IsFinite);
}

second_fits : StepFits fifth (positive 0) tenth
unfolding IsFinite add add_finite sub neg abs flt ◌+ℤ◌ of_value units scaled_value round_ratio
    exponent round_half_even next bits_float float_bits unpack_q pack_q mod_ℤ fle min_float
second_fits = record {
  acc_finite = fifth-IsFinite;
  compensation_finite = zero_IsFinite;
  term_finite = tenth-IsFinite;
  shifted_finite = tenth-IsFinite;
  sum_fits =
      only
        (λ t.
          IsFinite t
          × (t.magnitude ≤ fifth.magnitude)
          × IsFinite (add fifth t)
          × IsFinite (sub (add fifth t) fifth)
          × IsFinite (sub t (sub (add fifth t) fifth)))
        second_term
        (tenth-IsFinite, tenth-fifth_le, fifth-tenth-IsFinite, gained-IsFinite, lost-IsFinite);
}

last_bound :
    finish_bound (positive 4599075939470750516) (negated 4359484439294640128)
    ≡ ok (positive 4599075939470750516)
unfolding finish_bound add add_finite sub neg abs flt ◌+ℤ◌ of_value units scaled_value round_ratio
    exponent round_half_even next bits_float float_bits unpack_q pack_q mod_ℤ fle min_float
last_bound = refl

last_fits : FinishFits (positive 4599075939470750516, negated 4359484439294640128)
unfolding IsFinite add add_finite sub neg abs flt ◌+ℤ◌ of_value units scaled_value round_ratio
    exponent round_half_even next bits_float float_bits unpack_q pack_q mod_ℤ fle min_float
last_fits = record {
  acc_finite = three_tenths-IsFinite;
  compensation_finite = omega arith;
  sum_finite = three_tenths-IsFinite;
  bound_fits =
      only (λ z. IsFinite z × IsFinite (sub z (positive 4599075939470750516))) last_bound
        (three_tenths-IsFinite, zero_IsFinite);
}

two-LoopFits : LoopFits (positive 0, positive 0) (tenth ∷ fifth ∷ [])
unfolding LoopFits UpdateFits add add_finite sub neg abs flt ◌+ℤ◌ of_value units scaled_value
    round_ratio exponent round_half_even
two-LoopFits = (
  first_fits,
  only (λ after. LoopFits after (fifth ∷ [])) first_step
      (second_fits, only (λ after. LoopFits after []) second_step last_fits),
)

sum_up-upper_example :
    Returns (sum_up (tenth ∷ fifth ∷ [])) (λ bound. exact_sum (tenth ∷ fifth ∷ []) ≤ℤ value bound)
sum_up-upper_example = sum_up-upper (tenth ∷ fifth ∷ []) two-LoopFits
