-- ===== src/Sampler/Parallel/Tests.antt =====
-- A run of _generate_in_parallel with one CPU, two rounds, and results that are the units' numbers.
use umash.Prelude.{ℕ, ◌≡◌, refl, false, List, [], ◌∷◌, ◌==◌, leb}
use umash.Python.{Result, ok}
use umash.Python.Float.{
  Float, positive, of_ratio, of_int, mul, sub, neg, add, add_finite, of_value, units, round_ratio,
  exponent, round_half_even, flt, scaled_value,
}
use umash.Python.Integer.{◌+ℤ◌}
use umash.Sampler.Parallel.{
  Reading, Round, unit_delay, clamp, split_ready, grown, get_all, add_work_unit, fill_loop,
  fill_pending_list, round_step, generate_loop, generate_in_parallel, min_delay,
}

-- 1.0 and 2.0.
abbrev begin : Float
begin = positive 4607182418800017408

abbrev later : Float
later = positive 4611686018427387904

-- The task queue grows by a unit with each call of add_work_unit.
abbrev readings : ℕ → Reading ℕ
readings i = record { qsize = i; now = later; args = i }

abbrev results : ℕ → Result ℕ
results unit = ok unit

-- The unit 1 is ready first, then all are.
abbrev rounds : List (Round ℕ)
rounds =
    record { stopped = false; ready = λ unit. unit == 1; readings = readings }
    ∷ record { stopped = false; ready = λ unit. leb unit 2; readings = readings }
    ∷ []

yields : (generate_in_parallel 1 begin results readings rounds).0 ≡ 1 ∷ 0 ∷ 2 ∷ []
unfolding split_ready grown get_all add_work_unit fill_loop fill_pending_list round_step
    generate_loop generate_in_parallel
yields = refl

delay_there : unit_delay begin later ≡ min_delay
unfolding unit_delay clamp mul sub neg add add_finite ◌+ℤ◌ of_value units round_ratio exponent
    round_half_even of_ratio of_int flt scaled_value
delay_there = refl
