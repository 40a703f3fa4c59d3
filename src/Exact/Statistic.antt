-- ===== src/Exact/Statistic.antt =====
-- The statistics of t/exact_test.py and of t/exact_test_sampler.py, over an interface of floats.
use umash.Python.{Result}
use umash.Prelude.{ℕ, ◌≡◌, Bool, true, List, [], ◌∷◌}

-- What the code uses of Python's floats. `same_key` is the test of dict keys, `x is y or x == y`,
-- `ratio s n` is s / n, and `log` is math.log, which may raise.
pub record Floats : Type 1 where
  pub Float : Type 0
  pub feq : Float → Float → Bool
  pub fle : Float → Float → Bool
  pub flt : Float → Float → Bool
  pub same_key : Float → Float → Bool
  pub same_key_self : (x : Float) → same_key x x ≡ true
  pub zero_point_five : Float
  pub zero_point_99 : Float
  pub ratio : ℕ → ℕ → Float
  pub divide : Float → Float → Float
  pub multiply : Float → Float → Float
  pub of_int : ℕ → Float
  pub one_point_one : Float
  pub log : Float → Result Float

-- The values of `fn_name`: the C functions that compute the statistics.
pub data Function : Type 0 where
  exact_test_lte_prob exact_test_gt_prob exact_test_truncated_mean_diff exact_test_quantile_diff :
      Function

module _ (floats : Floats) (Name : Type 0) where
  pub record Statistic : Type 0 where
    pub name : Name
    pub probability_a_lower : floats.Float
    pub a_offset : ℕ
    pub b_offset : ℕ
    pub fn_name : Function
    pub fn_args : List floats.Float

  unfoldable pub lte_prob : Name → floats.Float → ℕ → ℕ → Statistic
  lte_prob name p_a_lower a_offset b_offset = record {
    name = name;
    probability_a_lower = p_a_lower;
    a_offset = a_offset;
    b_offset = b_offset;
    fn_name = exact_test_lte_prob;
    fn_args = [];
  }

  pub gt_prob : Name → floats.Float → ℕ → ℕ → Statistic
  gt_prob name p_a_lower a_offset b_offset = record {
    name = name;
    probability_a_lower = p_a_lower;
    a_offset = a_offset;
    b_offset = b_offset;
    fn_name = exact_test_gt_prob;
    fn_args = [];
  }

  pub mean : Name → floats.Float → floats.Float → ℕ → ℕ → Statistic
  mean name truncate_tails p_a_lower a_offset b_offset = record {
    name = name;
    probability_a_lower = p_a_lower;
    a_offset = a_offset;
    b_offset = b_offset;
    fn_name = exact_test_truncated_mean_diff;
    fn_args = truncate_tails ∷ [];
  }

  unfoldable pub quantile : Name → floats.Float → floats.Float → ℕ → ℕ → Statistic
  quantile name q p_a_lower a_offset b_offset = record {
    name = name;
    probability_a_lower = p_a_lower;
    a_offset = a_offset;
    b_offset = b_offset;
    fn_name = exact_test_quantile_diff;
    fn_args = q ∷ [];
  }

  unfoldable pub median : Name → floats.Float → ℕ → ℕ → Statistic
  median name p_a_lower a_offset b_offset =
      quantile name floats.zero_point_five p_a_lower a_offset b_offset

  pub q99 : Name → floats.Float → ℕ → ℕ → Statistic
  q99 name p_a_lower a_offset b_offset =
      quantile name floats.zero_point_99 p_a_lower a_offset b_offset
