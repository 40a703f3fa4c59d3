-- ===== src/Exact/Loop/Keeps.antt =====
-- The test loop of exact_test returns, and never changes a result that is there.
use umash.Prelude.{◌≤◌, ◌≡◌, none, some}
use umash.Python.Dict.{dict_get}
use umash.Python.Dict.Lookup.{Names}
use umash.Exact.Statistic.{Floats}
use umash.Exact.Count.{ResultAccumulator, FloatDict, TestResult}
use umash.Exact.Count.Tally.{IsTally}
use umash.Exact.Loop.{Results, Setting}

module _ (floats : Floats) (names : Names) where
  -- Every result stays as it is.
  abbrev pub Keeps : Results floats names → Results floats names → Type 0
  Keeps ret ret' =
      (name : names.Name) (r : TestResult floats names)
      → dict_get names.same name ret ≡ some r
      → dict_get names.same name ret' ≡ some r

  -- What the loop needs of an item: the counts of its statistic fit the trials, of which there are
  -- some, it has a value in the actual data, and in the sample too if it has no result.
  pub record IsReady (c : Setting floats names) (sample : FloatDict floats names)
      (ret : Results floats names) (item : names.Name × ResultAccumulator) : Type 0 where
    pub tally : IsTally floats names item.1
    pub some_trials : 1 ≤ item.1.trials
    pub actual : floats.Float
    pub known : dict_get names.same item.0 c.actual_stats ≡ some actual
    pub value :
        dict_get names.same item.0 ret ≡ none
        → (v : floats.Float) × (dict_get names.same item.0 sample ≡ some v)
