-- ===== src/Sampler/Statistics.antt =====
-- The values of the statistics in t/exact_test_sampler.py: on the actual data, and on resampled data.
pub mod Names
use umash.Prelude.{
  ℕ, zero, suc, ◌+◌, ◌^◌, ltb, Bool, true, false, Option, none, some, List, [], ◌∷◌, ◌++◌, length,
  if◌then◌else◌,
}
use umash.Python.{Result, ok, raise, ◌>>=◌, Error, Gen, or_fail}
use umash.Python.Dict.{dict_set}
use umash.Exact.Statistic.{Floats, Statistic, Function}
use umash.Exact.Plan.{Plan}

-- The C functions that the code calls. A buffer is the list of its values; a function that changes it
-- returns the new one, and one that draws random numbers takes and returns the generator's state.
pub record Library (floats : Floats) : Type 1 where
  pub Xoshiro : Type 0
  pub exact_test_prng_create : Xoshiro
  pub exact_test_shuffle : Xoshiro → List ℕ → ℕ → ℕ → floats.Float → Option (List ℕ × Xoshiro)
  pub exact_test_offset_sort : Xoshiro → List ℕ → ℕ → ℕ → ℕ → ℕ → List ℕ × Xoshiro
  pub call : Function → List ℕ → ℕ → ℕ → List floats.Float → floats.Float

pub record Sample : Type 0 where
  pub a_class : List ℕ
  pub b_class : List ℕ

-- The stores of _make_buf; one of a number that 64 bits do not hold raises.
unfoldable pub make_buf : List ℕ → Result (List ℕ)
make_buf [] = ok []
make_buf (x ∷ xs) =
    if ltb x (2 ^ 64) then (make_buf xs >>= λ buf. ok (x ∷ buf)) else raise Error.overflow_error

module _ (floats : Floats) (Name : Type 0) (same : Name → Name → Bool)
    (exact : Library floats) where
  abbrev pub Values : Type 0
  Values = List (Name × floats.Float)

  -- for stat in ...: results[stat.name] = getattr(EXACT, stat.fn_name)(buf, m, n, *stat.fn_args)
  unfoldable pub statistics_loop : List ℕ → ℕ → ℕ → List (Statistic floats Name) → Values → Values
  statistics_loop buf m n [] results = results
  statistics_loop buf m n (stat ∷ statistics) results =
      statistics_loop buf m n statistics
        (dict_set same stat.name (exact.call stat.fn_name buf m n stat.fn_args) results)

  unfoldable pub actual_data_results : Sample → List (Statistic floats Name) → Result Values
  actual_data_results sample statistics = do
    let m = length sample.a_class
    let n = length sample.b_class
    buf ← make_buf (sample.a_class ++ sample.b_class)
    let sorted = exact.exact_test_offset_sort exact.exact_test_prng_create buf m n 0 0
    ok (statistics_loop sorted.0 m n statistics [])

  -- for (a_offset, b_offset), stats_for_offset in stats_for_p.items()
  unfoldable pub offsets_loop :
      List ℕ
      → ℕ
      → ℕ
      → List ((ℕ × ℕ) × List (Statistic floats Name))
      → Values × exact.Xoshiro
      → Values × exact.Xoshiro
  offsets_loop shuffled m n [] state = state
  offsets_loop shuffled m n (item ∷ stats_for_p) state =
      let sorted = exact.exact_test_offset_sort state.1 shuffled m n (item.0.0) (item.0.1) in
      offsets_loop shuffled m n stats_for_p (statistics_loop sorted.0 m n item.1 state.0, sorted.1)

  -- for p_a_lt, stats_for_p in grouped_statistics.items()
  unfoldable pub shuffles_loop :
      List ℕ → ℕ → ℕ → Plan floats Name → Values × exact.Xoshiro → Result (Values × exact.Xoshiro)
  shuffles_loop buf m n [] state = ok state
  shuffles_loop buf m n (item ∷ grouped_statistics) state =
      elim (exact.exact_test_shuffle state.1 buf m n item.0) [
        | none ↦ raise Error.exception
        | some shuffled ↦
            shuffles_loop buf m n grouped_statistics
              (offsets_loop shuffled.0 m n item.1 (state.0, shuffled.1))
      ]

  unfoldable pub compute_results :
      List ℕ → ℕ → ℕ → Plan floats Name → exact.Xoshiro → Result (Values × exact.Xoshiro)
  compute_results buf m n grouped_statistics xoshiro =
      shuffles_loop buf m n grouped_statistics ([], xoshiro)

  -- The loop that yields them, for the first `count` values.
  unfoldable pub yield_results : ℕ → List ℕ → ℕ → ℕ → Plan floats Name → exact.Xoshiro → Gen Values
  yield_results zero buf m n grouped_statistics xoshiro = Gen.stop
  yield_results (suc count) buf m n grouped_statistics xoshiro =
      or_fail (compute_results buf m n grouped_statistics xoshiro)
        (λ state. Gen.yield (state.0) (yield_results count buf m n grouped_statistics (state.1)))

  -- _resampled_data_results_1, for the first `count` values.
  unfoldable pub resampled_data_results_1 : ℕ → Sample → Plan floats Name → Gen Values
  resampled_data_results_1 count sample grouped_statistics =
      or_fail (make_buf (sample.a_class ++ sample.b_class)) (λ buf.
        yield_results count buf (length sample.a_class) (length sample.b_class) grouped_statistics
          exact.exact_test_prng_create)
