-- ===== src/Exact/Loop/Returned.antt =====
-- The dict that exact_test returns, and the statistics that it still samples.
use umash.Prelude.{◌≡◌, some, map, All}
use umash.Python.Dict.{dict_get}
use umash.Python.Dict.Lookup.{Names}
use umash.Exact.Statistic.{Floats}
use umash.Exact.Count.{FloatDict}
use umash.Exact.Loop.{Results}

module _ (floats : Floats) (names : Names) where
  -- The dict `out` has the names of the actual data in their order, and for each what `ret` has.
  pub record IsReturned (ret : Results floats names) (actual_stats : FloatDict floats names)
      (out : Results floats names) : Type 0 where
    pub same_names : map (λ e. e.0) out ≡ map (λ e. e.0) actual_stats
    pub from_ret : All (λ e. dict_get names.same e.0 ret ≡ some e.1) out
