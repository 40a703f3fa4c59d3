-- ===== src/Exact/Tests.antt =====
-- Runs of the grouping and of the counting, with natural numbers in the place of floats.
use umash.Prelude.{
  ℕ, ◌≡◌, refl, ◌==◌, leb, Bool, true, false, Bool-cases, inl, inr, Option, some, none, List, [],
  ◌∷◌,
}
use umash.Exact.Samples.{hundredths, numbers}
use umash.Python.{Result, ok, raise, exception, key_error}
use umash.Python.Dict.{dict_get, dict_set, dict_item}
use umash.Exact.Statistic.{Statistic, lte_prob, median}
use umash.Exact.Plan.{group_statistics_in_plan}
use umash.Exact.Plan.Grouping.{IsPlan, group_statistics-IsPlan}
use umash.Exact.Count.{
  ResultAccumulator, Judgement, lower, TestResult, Accumulators, accumulate, count_sample,
  significance_test,
}
use umash.Exact.Count.Tally.{Covers, IsCount, count_sample-IsCount}
use umash.Exact.Count.Judge.{IsVerdict, IsWritten, significance_test-IsVerdict}
use umash.Exact.Driver.{name_set, contains_name, exact_test}
use umash.Exact.Loop.{Results, Setting}
use umash.Exact.Loop.Keeps.{Keeps}

abbrev statistics : List (Statistic hundredths ℕ)
statistics =
    lte_prob hundredths ℕ 1 50 0 0
    ∷ median hundredths ℕ 2 50 3 0
    ∷ lte_prob hundredths ℕ 3 50 0 0
    ∷ median hundredths ℕ 4 70 0 0
    ∷ []

group_statistics-IsPlan_example :
    IsPlan hundredths ℕ statistics (group_statistics_in_plan hundredths ℕ statistics)
group_statistics-IsPlan_example = group_statistics-IsPlan hundredths ℕ statistics

abbrev actual_stats : List (ℕ × ℕ)
actual_stats = (1, 5) ∷ (2, 7) ∷ []

abbrev zero_accumulator : ResultAccumulator
zero_accumulator = record { trials = 0; lte_actual = 0; gte_actual = 0 }

abbrev accumulators : Accumulators hundredths numbers
accumulators = (1, zero_accumulator) ∷ (2, zero_accumulator) ∷ []

-- 4 is below 5, and 7 is equal to 7.
count_of_two :
    count_sample hundredths numbers actual_stats ((1, 4) ∷ (2, 7) ∷ []) accumulators
    ≡ ok (
        (1, record { trials = 1; lte_actual = 1; gte_actual = 0 })
        ∷ (2, record { trials = 1; lte_actual = 1; gte_actual = 1 })
        ∷ [])
unfolding count_sample accumulate dict_item dict_get dict_set
count_of_two = refl

count_of_unknown :
    count_sample hundredths numbers actual_stats ((3, 4) ∷ []) accumulators ≡ raise key_error
unfolding count_sample accumulate dict_item dict_get dict_set
count_of_unknown = refl

accumulators-Covers : Covers hundredths numbers actual_stats accumulators
unfolding Covers dict_get
accumulators-Covers name actual known = elim (Bool-cases (name == 1)) [
  | inl one ↦ (zero_accumulator, rw one refl)
  | inr not_one ↦ elim (Bool-cases (name == 2)) [
    | inl two ↦ (zero_accumulator, rw (not_one, two) refl)
    | inr not_two ↦ let missing : none ≡ some actual = rw (not_one, not_two) at known in absurd cc
  ]
]

count_sample-IsCount_example :
    (accs : Accumulators hundredths numbers) × (count_sample hundredths numbers actual_stats
        ((1, 4) ∷ (2, 7) ∷ [])
        accumulators
      ≡ ok accs)
    × IsCount hundredths numbers actual_stats ((1, 4) ∷ (2, 7) ∷ []) accumulators accs
unfolding dict_get
count_sample-IsCount_example =
    count_sample-IsCount hundredths numbers actual_stats ((1, 4) ∷ (2, 7) ∷ []) accumulators
      accumulators-Covers ((5, refl), ((7, refl), tt))

-- A csm that is significant for at most 2 successes.
abbrev few_successes : ℕ → ℕ → ℕ → ℕ → Result Bool
few_successes n alpha s log_eps = ok (leb s 2)

abbrev counted : ResultAccumulator
counted = record { trials = 250; lte_actual = 1; gte_actual = 249 }

significance_test-IsVerdict_example :
    (verdict : Option Judgement) × (out : Results hundredths numbers × Bool) × (significance_test
        hundredths numbers few_successes [] 1 0 1 20 30 5 counted
      ≡ ok out)
    × IsVerdict true true false false verdict
    × IsWritten hundredths numbers [] 1 20 30 5 250 verdict out
significance_test-IsVerdict_example =
    significance_test-IsVerdict hundredths numbers few_successes [] 1 0 1 20 30 5 counted true false
      refl refl

abbrev setting : Setting hundredths numbers
setting = record {
  statistics = statistics;
  actual_stats = actual_stats;
  m = 20;
  n = 30;
  eps = 1;
  log_inner_eps = 0;
}

abbrev decided : TestResult hundredths numbers
decided = record { actual_value = 5; judgement = lower; m = 20; n = 30; num_trials = 250 }

-- The statistics of two names on no data.
abbrev two_statistics : List (Statistic hundredths ℕ)
two_statistics = lte_prob hundredths ℕ 1 50 0 0 ∷ median hundredths ℕ 2 50 3 0 ∷ []

exact_test_same_names :
    exact_test hundredths numbers few_successes
      (λ statistics. actual_stats)
      []
      0
      0
      (lte_prob hundredths ℕ 1 50 0 0 ∷ lte_prob hundredths ℕ 1 70 0 0 ∷ [])
      1
    ≡ raise exception
unfolding exact_test name_set contains_name lte_prob
exact_test_same_names = refl
