-- ===== src/Exact/Driver.antt =====
-- exact_test: its set-up, and its loop over the samples.
pub mod Settled
use umash.Prelude.{
  ℕ, ◌*◌, ◌==◌, Bool, true, false, ◌&&◌, ◌||◌, not, Option, none, some, List, [], ◌∷◌, ◌++◌, map,
  length, if◌then◌else◌,
}
use umash.Python.{Result, ok, raise, exception, ◌>>=◌}
use umash.Python.Dict.{dict_set}
use umash.Python.Dict.Lookup.{Names}
use umash.Exact.Statistic.{Floats, Statistic}
use umash.Exact.Plan.{group_statistics_in_plan}
use umash.Exact.Count.{FloatDict, TestResult, cannot_say, initial_result_accumulator}
use umash.Exact.Loop.{
  Results, Setting, State, Round, next_sample, returns, unresolved, sample_round,
}

module _ (floats : Floats) (names : Names) where
  unfoldable pub contains_name : names.Name → List names.Name → Bool
  contains_name name [] = false
  contains_name name (other ∷ seen) = names.same name other || contains_name name seen

  -- {stat.name for stat in statistics}, with the names so far.
  unfoldable pub name_set : List (Statistic floats names.Name) → List names.Name → List names.Name
  name_set [] seen = seen
  name_set (stat ∷ statistics) seen =
      name_set statistics (if contains_name stat.name seen then seen else stat.name ∷ seen)

  -- actual != actual or (not actual_data.a_class and not actual_data.b_class)
  abbrev pub is_settled : ℕ → ℕ → floats.Float → Bool
  is_settled m n actual = not (floats.feq actual actual) || (m == 0) && (n == 0)

  -- The loop that marks what has no data or a NaN as converged.
  pub settle : ℕ → ℕ → FloatDict floats names → Results floats names → Results floats names
  settle m n [] ret = ret
  settle m n (item ∷ actual_stats) ret =
      let result : TestResult floats names = record {
        actual_value = item.1;
        judgement = cannot_say;
        m = m;
        n = n;
        num_trials = 0;
      } in
      settle m n actual_stats
        (if is_settled m n item.1 then dict_set names.same item.0 result ret else ret)

  module _ (csm : ℕ → floats.Float → ℕ → floats.Float → Result Bool) where
    after_round :
        Round floats names
        → (State floats names → Result (Option (Results floats names)))
        → Result (Option (Results floats names))
    after_round (next_sample s) go_on = go_on s
    after_round (returns results) go_on = ok (some results)

    -- The loop over the samples; `none` is the None that the function returns when they end.
    pub sample_loop :
        Setting floats names
        → List (FloatDict floats names)
        → State floats names
        → Result (Option (Results floats names))
    sample_loop c [] s = ok none
    sample_loop c (sample ∷ samples) s = do
      round ← sample_round floats names csm c sample s
      after_round round (sample_loop c samples)

    -- From the computation of `actual_stats` on.
    pub start :
        Setting floats names
        → List (FloatDict floats names)
        → Result (Option (Results floats names))
    start c samples =
        let ret = settle c.m c.n c.actual_stats [] in
        if length ret == length c.actual_stats
        then ok (some ret)
        else sample_loop c samples (record {
          accumulators = map (λ e. (e.0, initial_result_accumulator)) c.actual_stats;
          ret = ret;
          seen = 0;
          test_every = 250;
          grouped_stats_queue =
              group_statistics_in_plan floats names.Name (unresolved floats names ret c.statistics)
              ∷ [];
        })

    -- actual_data_results(Sample(a, b), statistics) is a parameter, and so are the samples that
    -- resampled_data_results yields; `m` and `n` are len(a) and len(b).
    unfoldable pub exact_test :
        (List (Statistic floats names.Name) → FloatDict floats names)
        → List (FloatDict floats names)
        → ℕ
        → ℕ
        → List (Statistic floats names.Name)
        → floats.Float
        → Result (Option (Results floats names))
    exact_test actual_data_results samples m n [] eps = ok (some [])
    exact_test actual_data_results samples m n (stat ∷ rest) eps =
        let statistics = stat ∷ rest in
        let corrected =
          floats.divide eps
            (floats.multiply (floats.of_int (2 * length statistics)) floats.one_point_one) in
        if not (length statistics == length (name_set statistics [])) then raise exception else (do
          log_inner_eps ← floats.log (floats.divide corrected (floats.of_int 10))
          start
              (record {
                statistics = statistics;
                actual_stats = actual_data_results statistics;
                m = m;
                n = n;
                eps = corrected;
                log_inner_eps = log_inner_eps;
              })
              samples)
