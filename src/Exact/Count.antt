-- ===== src/Exact/Count.antt =====
-- exact_test: how the loop over the samples counts, and the test that it applies to the counts.
pub mod Tally
pub mod Judge
use umash.Prelude.{
  ℕ, ◌+◌, ◌*◌, ◌%◌, ◌==◌, leb, Bool, true, false, ◌&&◌, not, Option, none, some, List, [], ◌∷◌,
  length, if◌then◌else◌,
}
use umash.Python.{Result, ok, raise, ◌>>=◌}
use umash.Python.Dict.{dict_get, dict_set, dict_item}
use umash.Python.Dict.Lookup.{Names}
use umash.Exact.Statistic.{Floats}

pub record ResultAccumulator : Type 0 where
  pub trials : ℕ
  pub lte_actual : ℕ
  pub gte_actual : ℕ

abbrev pub initial_result_accumulator : ResultAccumulator
initial_result_accumulator = record { trials = 0; lte_actual = 0; gte_actual = 0 }

-- The values -1, 0 and 1 of `judgement`.
pub data Judgement : Type 0 where
  lower cannot_say higher : Judgement

module _ (floats : Floats) (names : Names) where
  abbrev pub FloatDict : Type 0
  FloatDict = List (names.Name × floats.Float)

  abbrev pub Accumulators : Type 0
  Accumulators = List (names.Name × ResultAccumulator)

  -- The namedtuple Result.
  pub record TestResult : Type 0 where
    pub actual_value : floats.Float
    pub judgement : Judgement
    pub m : ℕ
    pub n : ℕ
    pub num_trials : ℕ

  -- The body of the loop over sample.items(), with `stat >= actual` as `actual <= stat`.
  unfoldable pub accumulate : floats.Float → floats.Float → ResultAccumulator → ResultAccumulator
  accumulate actual stat current = record {
    trials = current.trials + 1;
    lte_actual = if floats.fle stat actual then current.lte_actual + 1 else current.lte_actual;
    gte_actual = if floats.fle actual stat then current.gte_actual + 1 else current.gte_actual;
  }

  unfoldable pub count_sample : FloatDict → FloatDict → Accumulators → Result Accumulators
  count_sample actual_stats [] accumulators = ok accumulators
  count_sample actual_stats (item ∷ sample) accumulators = do
    actual ← dict_item names.same item.0 actual_stats
    current ← dict_item names.same item.0 accumulators
    count_sample actual_stats sample
        (dict_set names.same item.0 (accumulate actual item.1 current) accumulators)

  -- The decision of _significance_test, from the two csm tests and the comparisons of the two
  -- ratios with eps; `none` stands for no new result.
  pub decide : Bool → Bool → Bool → Bool → Option Judgement
  decide lt_significant lt_below gt_significant gt_below =
      let count_in_middle = if lt_significant then 1 else 0 in
      if lt_significant && lt_below
      then some lower
      else let count_in_middle' = if gt_significant then count_in_middle + 1 else count_in_middle in
        if gt_significant && gt_below
        then some higher
        else if count_in_middle' == 2
        then some cannot_say
        else none

  -- ret[name] = partial_result._replace(judgement=…), where there is a judgement.
  pub record_judgement :
      List (names.Name × TestResult)
      → names.Name
      → ℕ
      → ℕ
      → floats.Float
      → ℕ
      → Option Judgement
      → List (names.Name × TestResult) × Bool
  record_judgement ret name m n actual trials none = (ret, false)
  record_judgement ret name m n actual trials (some judgement) =
      let result : TestResult = record {
        actual_value = actual;
        judgement = judgement;
        m = m;
        n = n;
        num_trials = trials;
      } in
      (dict_set names.same name result ret, true)

  -- csm(n, alpha, s, log_eps): the first component of its result; it may raise.
  module _ (csm : ℕ → floats.Float → ℕ → floats.Float → Result Bool) where
    -- _significance_test without a log: the new `ret`, and whether there is a new result.
    pub significance_test :
        List (names.Name × TestResult)
        → floats.Float
        → floats.Float
        → names.Name
        → ℕ
        → ℕ
        → floats.Float
        → ResultAccumulator
        → Result (List (names.Name × TestResult) × Bool)
    significance_test ret eps log_inner_eps name m n actual acc = do
      lt_significant ← csm acc.trials eps acc.lte_actual log_inner_eps
      gt_significant ← csm acc.trials eps acc.gte_actual log_inner_eps
      ok (
          record_judgement ret name m n actual acc.trials (
            decide lt_significant (floats.flt (floats.ratio acc.lte_actual acc.trials) eps)
              gt_significant (floats.flt (floats.ratio acc.gte_actual acc.trials) eps)))
