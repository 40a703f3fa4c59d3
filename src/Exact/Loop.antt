-- ===== src/Exact/Loop.antt =====
-- exact_test: one round of its loop over the samples.
pub mod Keeps
pub mod Returned
use umash.Prelude.{
  ℕ, ◌+◌, ◌*◌, ◌%◌, ◌==◌, leb, Bool, true, false, ◌||◌, not, Option, none, some, List, [], ◌∷◌,
  ◌++◌, length, if◌then◌else◌,
}
use umash.Python.{Result, ok, raise, ◌>>=◌}
use umash.Python.Dict.{dict_get, dict_item}
use umash.Python.Dict.Lookup.{Names}
use umash.Exact.Statistic.{Floats, Statistic}
use umash.Exact.Plan.{Plan, group_statistics_in_plan}
use umash.Exact.Count.{
  ResultAccumulator, FloatDict, Accumulators, TestResult, count_sample, significance_test,
}

-- `k in d`
abbrev pub is_some {ℓ} : {A : Type ℓ} → Option A → Bool
is_some none = false
is_some (some a) = true

module _ (floats : Floats) (names : Names) where
  abbrev pub Results : Type 0
  Results = List (names.Name × TestResult floats names)

  -- What the loop does not change.
  pub record Setting : Type 0 where
    pub statistics : List (Statistic floats names.Name)
    pub actual_stats : FloatDict floats names
    pub m : ℕ
    pub n : ℕ
    pub eps : floats.Float
    pub log_inner_eps : floats.Float

  -- Its variables; `grouped_stats_queue` holds all that was put, the first first.
  pub record State : Type 0 where
    pub accumulators : Accumulators floats names
    pub ret : Results
    pub seen : ℕ
    pub test_every : ℕ
    pub grouped_stats_queue : List (Plan floats names.Name)

  -- How a round ends: it goes on to the next sample, or returns.
  pub data Round : Type 0 where
    next_sample : State → Round
    returns : Results → Round

  -- [stat for stat in statistics if stat.name not in ret]
  pub unresolved : Results → List (Statistic floats names.Name) → List (Statistic floats names.Name)
  unresolved ret [] = []
  unresolved ret (stat ∷ statistics) =
      let rest = unresolved ret statistics in
      if is_some (dict_get names.same stat.name ret) then rest else stat ∷ rest

  -- {name: ret[name] for name in actual_stats}
  pub results_of : Results → FloatDict floats names → Result Results
  results_of ret [] = ok []
  results_of ret (item ∷ actual_stats) = do
    result ← dict_item names.same item.0 ret
    rest ← results_of ret actual_stats
    ok ((item.0, result) ∷ rest)

  module _ (csm : ℕ → floats.Float → ℕ → floats.Float → Result Bool) where
    -- for name, acc in accumulators.items(), with `ret` and `new_significant` so far.
    pub test_loop :
        Setting
        → FloatDict floats names
        → Accumulators floats names
        → Results
        → Bool
        → Result (Results × Bool)
    test_loop c sample [] ret new_significant = ok (ret, new_significant)
    test_loop c sample (item ∷ accumulators) ret new_significant =
        elim (is_some (dict_get names.same item.0 ret)) [
          | true ↦ test_loop c sample accumulators ret new_significant
          | false ↦ do
            value ← dict_item names.same item.0 sample
            actual ← dict_item names.same item.0 c.actual_stats
            tested ←
                significance_test floats names csm ret c.eps c.log_inner_eps item.0 c.m c.n actual
                  item.1
            test_loop c sample accumulators tested.0 (new_significant || tested.1)
        ]

    -- From the test loop on.
    pub test_round : Setting → FloatDict floats names → State → Result Round
    test_round c sample s = do
      tested ← test_loop c sample s.accumulators s.ret false
      let queue =
          if tested.1
          then s.grouped_stats_queue
            ++ group_statistics_in_plan floats names.Name (unresolved tested.0 c.statistics) ∷ []
          else s.grouped_stats_queue
      if length tested.0 == length c.actual_stats
          then (do results ← results_of tested.0 c.actual_stats; ok (returns results))
          else ok (
              next_sample (record {
                accumulators = s.accumulators;
                ret = tested.0;
                seen = s.seen;
                test_every = s.test_every;
                grouped_stats_queue = queue;
              }))

    -- The body of the loop over the samples.
    pub sample_round : Setting → FloatDict floats names → State → Result Round
    sample_round c sample s = do
      accumulators ← count_sample floats names c.actual_stats sample s.accumulators
      let seen = s.seen + 1
      let counted : State = record {
        accumulators = accumulators;
        ret = s.ret;
        seen = seen;
        test_every = s.test_every;
        grouped_stats_queue = s.grouped_stats_queue;
      }
      if not (seen % s.test_every == 0)
          then ok (next_sample counted)
          else test_round c sample (record {
            accumulators = accumulators;
            ret = s.ret;
            seen = seen;
            test_every = if leb (40 * s.test_every) seen then s.test_every * 10 else s.test_every;
            grouped_stats_queue = s.grouped_stats_queue;
          })
