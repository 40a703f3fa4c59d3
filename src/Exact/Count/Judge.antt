-- ===== src/Exact/Count/Judge.antt =====
-- _significance_test: which judgement it makes, and what it writes.
use umash.Prelude.{ℕ, ◌≡◌, refl, Bool, true, false, ◌&&◌, Option, none, some, List}
use umash.Python.{Result, ok}
use umash.Python.Dict.{dict_get}
use umash.Python.Dict.Lookup.{Names, dict_get-dict_set, dict_get-dict_set_other}
use umash.Exact.Statistic.{Floats}
use umash.Exact.Count.{
  ResultAccumulator, Judgement, lower, cannot_say, higher, TestResult, decide, record_judgement,
  significance_test,
}

-- The judgement for two tests, `lt` and `gt`, and the comparisons of their ratios with eps.
pub data IsVerdict (lt lt_below gt gt_below : Bool) : Option Judgement → Type 0 where
  is_lower : lt ≡ true → lt_below ≡ true → IsVerdict lt lt_below gt gt_below (some lower)
  is_higher :
      (lt && lt_below) ≡ false
      → gt ≡ true
      → gt_below ≡ true
      → IsVerdict lt lt_below gt gt_below (some higher)
  is_middle :
      lt ≡ true
      → lt_below ≡ false
      → gt ≡ true
      → gt_below ≡ false
      → IsVerdict lt lt_below gt gt_below (some cannot_say)
  is_open :
      (lt && lt_below) ≡ false
      → (gt && gt_below) ≡ false
      → (lt && gt) ≡ false
      → IsVerdict lt lt_below gt gt_below none

module _ (floats : Floats) (names : Names) where
  decide-IsVerdict :
      (lt lt_below gt gt_below : Bool)
      → IsVerdict lt lt_below gt gt_below (decide floats names lt lt_below gt gt_below)
  unfolding decide
  decide-IsVerdict true true gt gt_below = is_lower refl refl
  decide-IsVerdict true false true true = is_higher refl refl refl
  decide-IsVerdict true false true false = is_middle refl refl refl refl
  decide-IsVerdict true false false gt_below = is_open refl refl refl
  decide-IsVerdict false lt_below true true = is_higher refl refl refl
  decide-IsVerdict false lt_below true false = is_open refl refl refl
  decide-IsVerdict false lt_below false gt_below = is_open refl refl refl

  Results : Type 0
  Results = List (names.Name × TestResult floats names)

  -- What is written for a verdict: one result under the name, and nothing else.
  unfoldable pub IsWritten :
      (ret : List (names.Name × TestResult floats names)) (name : names.Name) (m n : ℕ)
      (actual : floats.Float) (trials : ℕ)
      → Option Judgement
      → List (names.Name × TestResult floats names) × Bool
      → Type 0
  IsWritten ret name m n actual trials none out = (out.0 ≡ ret) × (out.1 ≡ false)
  IsWritten ret name m n actual trials (some j) out =
      (out.1 ≡ true)
      × (dict_get names.same name out.0
          ≡ some
              (record { actual_value = actual; judgement = j; m = m; n = n; num_trials = trials }))
      × ((other : names.Name)
          → names.same other name ≡ false
          → dict_get names.same other out.0 ≡ dict_get names.same other ret)

  record_judgement-IsWritten :
      (ret : List (names.Name × TestResult floats names)) (name : names.Name) (m n : ℕ)
      (actual : floats.Float) (trials : ℕ) (verdict : Option Judgement)
      → IsWritten ret name m n actual trials verdict
          (record_judgement floats names ret name m n actual trials verdict)
  unfolding IsWritten record_judgement
  record_judgement-IsWritten ret name m n actual trials none = (refl, refl)
  record_judgement-IsWritten ret name m n actual trials (some j) =
      let result : TestResult floats names = record {
        actual_value = actual;
        judgement = j;
        m = m;
        n = n;
        num_trials = trials;
      } in
      (
        refl,
        dict_get-dict_set names name result ret,
        λ other apart. dict_get-dict_set_other names other name result ret apart,
      )

  module _ (csm : ℕ → floats.Float → ℕ → floats.Float → Result Bool) where
    -- When both csm tests return, _significance_test judges by them and by the ratios: lower when the first is
    -- significant with its ratio below eps, else higher when the second is, else that nothing can
    -- be said when both are significant, else not at all. It writes a result for a judgement under
    -- its name and reports that, keeps the results of all other names, and changes nothing without
    -- a judgement.
    pub significance_test-IsVerdict :
        (ret : List (names.Name × TestResult floats names)) (eps log_inner_eps : floats.Float)
        (name : names.Name) (m n : ℕ) (actual : floats.Float) (acc : ResultAccumulator)
        (lt gt : Bool)
        → csm acc.trials eps acc.lte_actual log_inner_eps ≡ ok lt
        → csm acc.trials eps acc.gte_actual log_inner_eps ≡ ok gt
        → (verdict : Option Judgement) × (out : List (names.Name × TestResult floats names) × Bool)
          × (significance_test floats names csm ret eps log_inner_eps name m n actual acc ≡ ok out)
          × IsVerdict lt
              (floats.flt (floats.ratio acc.lte_actual acc.trials) eps)
              gt
              (floats.flt (floats.ratio acc.gte_actual acc.trials) eps)
              verdict
          × IsWritten ret name m n actual acc.trials verdict out
    unfolding significance_test
    significance_test-IsVerdict ret eps log_inner_eps name m n actual acc lt gt low high = (
      decide floats names lt (floats.flt (floats.ratio acc.lte_actual acc.trials) eps) gt
          (floats.flt (floats.ratio acc.gte_actual acc.trials) eps),
      _,
      rw (low, high) refl,
      decide-IsVerdict lt _ gt _,
      record_judgement-IsWritten ret name m n actual acc.trials _,
    )
