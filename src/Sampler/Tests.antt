-- ===== src/Sampler/Tests.antt =====
-- Runs of the sampler on small inputs.
use umash.Prelude.{
  ℕ, suc, ◌+◌, ◌≡◌, refl, ◌==◌, ==_iff, Bool, false, some, List, [], ◌∷◌, length, map,
}
use umash.Python.{ok, raise, Error}
use umash.Python.Dict.Groups.{DistinctKeys}
use umash.Exact.Statistic.{lte_prob, median}
use umash.Exact.Plan.{Plan}
use umash.Exact.Samples.{hundredths}
use umash.Sampler.Convert.{
  max_length, convert_result_arrays_to_proto, convert_proto_to_result_dicts,
  generate_in_parallel_worker,
}
use umash.Sampler.Convert.Columns.{Column, dict_of, arrays_of}
use umash.Sampler.Convert.RoundTrip.{convert-arrays_of}
use umash.Sampler.Convert.Worker.{IsReturned, generate_in_parallel_worker-IsReturned}
use umash.Sampler.Statistics.{Library}

abbrev same_name : ℕ → ℕ → Bool
same_name x y = x == y

abbrev first_column : Column ℕ ℕ ℕ
first_column = (1, λ r. r)

abbrev other_columns : List (Column ℕ ℕ ℕ)
other_columns = (2, λ r. r + 10) ∷ []

columns-DistinctKeys : DistinctKeys same_name (first_column ∷ other_columns)
unfolding DistinctKeys
columns-DistinctKeys = ((refl, tt), (tt, tt))

convert-arrays_of_example :
    convert_proto_to_result_dicts same_name
      (convert_result_arrays_to_proto (arrays_of (first_column ∷ other_columns) (5 ∷ 6 ∷ [])))
    ≡ ok (map (dict_of (first_column ∷ other_columns)) (5 ∷ 6 ∷ []))
convert-arrays_of_example =
    convert-arrays_of same_name first_column other_columns (5 ∷ 6 ∷ []) columns-DistinctKeys

no_results : convert_proto_to_result_dicts {Name = ℕ} {V = ℕ} same_name [] ≡ raise Error.value_error
unfolding convert_proto_to_result_dicts max_length
no_results = refl

generate_in_parallel_worker-IsReturned_example :
    IsReturned same_name
      (λ x. (==_iff x x).1 refl)
      first_column
      other_columns
      1
      (λ i. false)
      (5 ∷ 6 ∷ 7 ∷ [])
      (generate_in_parallel_worker same_name 1
        (λ i. false)
        (map (dict_of (first_column ∷ other_columns)) (5 ∷ 6 ∷ 7 ∷ [])))
generate_in_parallel_worker-IsReturned_example =
    generate_in_parallel_worker-IsReturned same_name (λ x. (==_iff x x).1 refl) first_column
      other_columns 1 (λ i. false) (5 ∷ 6 ∷ 7 ∷ []) columns-DistinctKeys

-- A library that leaves the buffer as it is.
abbrev library : Library hundredths
library = record {
  Xoshiro = ℕ;
  exact_test_prng_create = 0;
  exact_test_shuffle = λ x buf m n p. some (buf, suc x);
  exact_test_offset_sort = λ x buf m n a b. (buf, suc x);
  call = λ f buf m n args. length buf;
}

abbrev plan : Plan hundredths ℕ
plan =
    (
      50,
      ((0, 0), lte_prob hundredths ℕ 1 50 0 0 ∷ [])
          ∷ ((3, 0), median hundredths ℕ 2 50 3 0 ∷ [])
          ∷ [],
    )
    ∷ []
