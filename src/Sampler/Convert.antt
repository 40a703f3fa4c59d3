-- ===== src/Sampler/Convert.antt =====
-- The batches of t/exact_test_sampler.py: a worker collects the values of a generator by statistic, and
-- the reader gives them back one dict for each.
pub mod Columns
pub mod RoundTrip
pub mod Worker
use umash.Prelude.{
  ℕ, zero, suc, ◌+◌, max, leb, Bool, true, false, ◌||◌, Option, none, some, List, [], ◌∷◌, ◌++◌,
  length, if◌then◌else◌,
}
use umash.Python.{Result, ok, raise, ◌>>=◌, Error}
use umash.Python.Dict.{dict_change, dict_set}

-- ResultSet.StatisticValues; a ResultSet is a list of them.
pub record StatisticValues (Name V : Type 0) : Type 0 where
  pub statistic_name : Name
  pub values : List V

module _ {Name V : Type 0} where
  unfoldable pub convert_result_arrays_to_proto :
      List (Name × List V) → List (StatisticValues Name V)
  convert_result_arrays_to_proto [] = []
  convert_result_arrays_to_proto (item ∷ dict_of_arrays) =
      record { statistic_name = item.0; values = item.1 }
      ∷ convert_result_arrays_to_proto dict_of_arrays

  -- max(len(stats.values) for stats in result_set.results), which raises for no results.
  unfoldable pub longest : ℕ → List (StatisticValues Name V) → ℕ
  longest n [] = n
  longest n (stats ∷ results) = longest (max n (length stats.values)) results

  unfoldable pub max_length : List (StatisticValues Name V) → Result ℕ
  max_length [] = raise Error.value_error
  max_length (stats ∷ results) = ok (longest (length stats.values) results)

  -- [dict() for _ in range(max_length)]
  unfoldable pub empty_dicts : ℕ → List (List (Name × V))
  empty_dicts zero = []
  empty_dicts (suc n) = [] ∷ empty_dicts n

module _ {Name V : Type 0} (same : Name → Name → Bool) where
  -- The loop over enumerate(stats.values), from the first dict that is left.
  unfoldable pub set_values :
      Name → List V → List (List (Name × V)) → Result (List (List (Name × V)))
  set_values name [] dicts = ok dicts
  set_values name (value ∷ values) [] = raise Error.index_error
  set_values name (value ∷ values) (dict ∷ dicts) = do
    rest ← set_values name values dicts
    ok (dict_set same name value dict ∷ rest)

  -- The loop over result_set.results.
  unfoldable pub set_results :
      List (StatisticValues Name V) → List (List (Name × V)) → Result (List (List (Name × V)))
  set_results [] dicts = ok dicts
  set_results (stats ∷ results) dicts =
      set_values stats.statistic_name stats.values dicts >>= λ dicts. set_results results dicts

  unfoldable pub convert_proto_to_result_dicts :
      List (StatisticValues Name V) → Result (List (List (Name × V)))
  convert_proto_to_result_dicts result_set =
      max_length result_set >>= λ n. set_results result_set (empty_dicts n)

  -- for k, v in value.items(): results[k].append(v)
  unfoldable pub append_values : List (Name × V) → List (Name × List V) → List (Name × List V)
  append_values [] results = results
  append_values (item ∷ value) results =
      append_values value (dict_change same item.0 [] (λ vs. vs ++ item.1 ∷ []) results)

  -- The loop of _generate_in_parallel_worker over the values of the generator, the next being the
  -- i-th, with max_results and the readings `time.monotonic() >= end` after each value.
  unfoldable pub worker_loop :
      ℕ
      → (ℕ → Bool)
      → ℕ
      → List (List (Name × V))
      → List (Name × List V)
      → Option (List (StatisticValues Name V))
  worker_loop max_results expired i [] results = none
  worker_loop max_results expired i (value ∷ values) results =
      let results = append_values value results in
      let rest = worker_loop max_results expired (suc i) values results in
      if leb max_results i || expired i then some (convert_result_arrays_to_proto results) else rest

  -- _generate_in_parallel_worker, with the `max_results` that the jitter leaves.
  unfoldable pub generate_in_parallel_worker :
      ℕ → (ℕ → Bool) → List (List (Name × V)) → Option (List (StatisticValues Name V))
  generate_in_parallel_worker max_results expired values =
      worker_loop max_results expired 0 values []
