-- ===== src/Exact/Driver/Settled.antt =====
-- exact_test on data without a question: every statistic is a NaN, or there is no data.
use umash.Prelude.{ℕ, ◌≡◌, false, List, All}
use umash.Python.Dict.Lookup.{Names}
use umash.Exact.Statistic.{Floats, Statistic}
use umash.Exact.Count.{FloatDict, TestResult, cannot_say}
use umash.Exact.Loop.{Results}

module _ (floats : Floats) (names : Names) where
  -- No key of the items is one of the dict.
  Fresh : Results floats names → FloatDict floats names → Type 0
  Fresh ret = All (λ item. All (λ e. names.same item.0 e.0 ≡ false) ret)

  module _ (m n : ℕ) where
    -- The result that says nothing, from no trial.
    pub settled_result : names.Name × floats.Float → names.Name × TestResult floats names
    settled_result item =
        let result : TestResult floats names = record {
          actual_value = item.1;
          judgement = cannot_say;
          m = m;
          n = n;
          num_trials = 0;
        } in
        (item.0, result)
