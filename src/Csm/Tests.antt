-- ===== src/Csm/Tests.antt =====
-- Runs of t/csm.py on small inputs, most of them from its doctests.
use umash.Prelude.{ℕ, zero, suc, ◌^◌, ◌<◌, ◌≡◌, ◌↔◌, refl, Bool, true, false, [], ◌∷◌, arith}
use umash.Python.{ok}
use umash.Python.Integer.{pos, negsuc, ◌+ℤ◌, mod_ℤ}
use umash.Python.Float.{
  Float, positive, of_int, of_ratio, of_value, neg, abs, mul, add, add_finite, sub, flt, fle,
  min_float, units, scaled_value, round_ratio, exponent, round_half_even,
}
use umash.Csm.Ulps.{unpack_q, pack_q, float_bits, bits_float, next, log_up, log1p_up}
use umash.Csm.Ulps.Bits.{IsFloat, IsWord, negated, float_bits_bijective}
use umash.Csm.Sum.{
  dekker_sum, adjust_term, sum_update_ordered, sum_update_up, finish_bound, sum_update_finish,
  sum_loop, sum_up,
}
use umash.Csm.Choose.{robbins_log_choose}
use umash.Csm.Level.{log_level_of, csm}
use umash.Csm.Driver.{driver_start, breaks, must_continue, reaches, driver_loop}
use umash.Csm.Driver.First.{endless, after, success_count, IsTested, EndsAfter, driver_loop_first}
use umash.Csm.Samples.{half, libm, options}

float_bits_one : float_bits (of_int 1) ≡ pos 4607182418800017408
unfolding ◌+ℤ◌ mod_ℤ float_bits unpack_q pack_q bits_float next add add_finite sub neg abs mul flt
    fle min_float of_value of_int of_ratio units scaled_value round_ratio exponent round_half_even
float_bits_one = refl

float_bits_negative : float_bits (neg (of_ratio 25 10)) ≡ negsuc 4612811918334230528
unfolding ◌+ℤ◌ mod_ℤ float_bits unpack_q pack_q bits_float next add add_finite sub neg abs mul flt
    fle min_float of_value of_int of_ratio units scaled_value round_ratio exponent round_half_even
float_bits_negative = refl

-- sum_up(2.5, 1e16, -1e16) is 4.0.
sum_up_cancels :
    sum_up (of_ratio 25 10 ∷ of_int (10 ^ 16) ∷ neg (of_int (10 ^ 16)) ∷ []) ≡ ok (of_int 4)
unfolding ◌+ℤ◌ mod_ℤ float_bits unpack_q pack_q bits_float next add add_finite sub neg abs mul flt
    fle min_float of_value of_int of_ratio units scaled_value round_ratio exponent round_half_even
    sum_up sum_loop sum_update_up sum_update_ordered adjust_term dekker_sum finish_bound
    sum_update_finish
sum_up_cancels = refl

-- csm(1, 0.5, 1, -1) is (False, 9.992007221626409e-16), as csm(1, 0.5, 0, -1) is.
csm_one : csm libm 1 half 1 (neg (of_int 1)) ≡ ok (false, positive 4382565387384913920)
unfolding ◌+ℤ◌ mod_ℤ float_bits unpack_q pack_q bits_float next add add_finite sub neg abs mul flt
    fle min_float of_value of_int of_ratio units scaled_value round_ratio exponent round_half_even
    sum_up sum_loop sum_update_up sum_update_ordered adjust_term dekker_sum finish_bound
    sum_update_finish csm log_level_of log_up log1p_up robbins_log_choose
csm_one = refl

csm_two : csm libm 2 half 2 (neg (of_int 1)) ≡ ok (false, negated 4598854039415085932)
unfolding ◌+ℤ◌ mod_ℤ float_bits unpack_q pack_q bits_float next add add_finite sub neg abs mul flt
    fle min_float of_value of_int of_ratio units scaled_value round_ratio exponent round_half_even
    sum_up sum_loop sum_update_up sum_update_ordered adjust_term dekker_sum finish_bound
    sum_update_finish csm log_level_of log_up log1p_up robbins_log_choose
csm_two = refl

one-IsFloat : IsFloat (positive 4607182418800017408)
unfolding IsFloat
one-IsFloat = omega arith

one-IsWord : IsWord (pos 4607182418800017408)
unfolding IsWord
one-IsWord = (omega arith, omega arith)

float_bits_bijective_example :
    (float_bits (positive 4607182418800017408) ≡ pos 4607182418800017408)
    ↔ (bits_float (pos 4607182418800017408) ≡ ok (positive 4607182418800017408))
float_bits_bijective_example =
    float_bits_bijective (positive 4607182418800017408) (pos 4607182418800017408) one-IsFloat
      one-IsWord

abbrev minus_one : Float
minus_one = neg (of_int 1)

abbrev always : ℕ → Bool
always i = true

abbrev no_stops : ℕ → Bool
no_stops n = false

abbrev levels : ℕ → Float
levels zero = positive 0
levels (suc zero) = positive 4382565387384913920
levels (suc (suc n)) = negated 4598854039415085932

two-IsTested : IsTested libm options minus_one always no_stops levels 2
unfolding IsTested success_count
two-IsTested zero h = csm_one
two-IsTested (suc zero) h = csm_two
two-IsTested (suc (suc n)) h = absurd (omega arith)

goes_past_one : (k : ℕ) → k < 1 → breaks options (suc k) (no_stops (suc k)) ≡ false
unfolding breaks must_continue reaches
goes_past_one zero h = refl
goes_past_one (suc k) h = absurd (omega arith)

two_ends : EndsAfter libm options minus_one always no_stops levels 1
unfolding EndsAfter breaks must_continue reaches
two_ends = (goes_past_one, refl)

driver_loop_first_example :
    driver_loop libm (endless always) options minus_one 5 driver_start 0
    ≡ ok (after always 2 false (negated 4598854039415085932), 2)
driver_loop_first_example =
    driver_loop_first libm options minus_one always no_stops levels 1 5 (omega arith) refl
      two-IsTested two_ends
