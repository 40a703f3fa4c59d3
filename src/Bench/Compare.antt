-- ===== src/Bench/Compare.antt =====
-- compare_inputs of t/umash_bench.py, and its two callers.
use Prim.Native.String.{String}
use text.Mathlib.Text.{◌==◌ as ◌=s=◌}
use umash.Prelude.{
  ℕ, zero, suc, ◌+◌, ◌*◌, ◌/◌, ◌^◌, max, Bool, true, false, Option, List, [], ◌∷◌, length,
  if◌then◌else◌,
}
use umash.Python.{Result, ok, raise, ◌>>=◌, Error}
use umash.Python.Dict.{dict_set}
use umash.Python.Integer.{ℤ, pos, negsuc}
use umash.Bench.Traces.{Call, full_call_sizes}
use umash.Bench.Blocks.{Timings, grouper, fill_inputs, update_results}

-- What compare_inputs calls: the two compiled runners, each of which fills the buffer of timings, which
-- is the function that reads it, and the random module. Calls are told apart by their number.
pub record Runners : Type 0 where
  pub current : ℕ → List ℕ → ℕ → ℕ → ℕ → ℕ
  pub baseline : ℕ → List ℕ → ℕ → ℕ → ℕ → ℕ
  pub baseline_first : ℕ → Bool
  pub shuffle_lengths : ℕ → List ℕ → List ℕ

-- The variables of the loops; `blocks` counts the blocks that were run.
pub record Comparison : Type 0 where
  pub record_results : Bool
  pub inputs : List ℕ
  pub current_results : Timings
  pub baseline_results : Timings
  pub blocks : ℕ

-- max(length_arguments), which raises for an empty list.
unfoldable pub max_of : List ℕ → Result ℕ
max_of [] = raise Error.value_error
max_of (x ∷ []) = ok x
max_of (x ∷ y ∷ xs) = max_of (y ∷ xs) >>= λ m. ok (max x m)

-- [0] * block_size
unfoldable pub zeros : ℕ → List ℕ
zeros zero = []
zeros (suc n) = 0 ∷ zeros n

-- if record_results: _update_results(results, inputs, timings, count)
unfoldable pub record_timings : Comparison → Timings → (ℕ → ℕ) → ℕ → Result Timings
record_timings c results timings count =
    if c.record_results then update_results results c.inputs timings count else ok results

module _ (runners : Runners) where
  -- One block, run by both implementations, in the order of the shuffle.
  unfoldable pub run_block : ℕ → List (Option ℕ) → Comparison → Result Comparison
  run_block max_len block c = do
    filled ← fill_inputs block c.inputs
    let count = filled.0
    let inputs = filled.1
    let first = runners.baseline_first c.blocks
    let copied : Comparison = record {
      record_results = c.record_results;
      inputs = inputs;
      current_results = c.current_results;
      baseline_results = c.baseline_results;
      blocks = c.blocks;
    }
    let current = runners.current (2 * c.blocks + (if first then 1 else 0)) inputs count max_len
    let baseline = runners.baseline (2 * c.blocks + (if first then 0 else 1)) inputs count max_len
    current_results ← record_timings copied c.current_results current count
    baseline_results ← record_timings copied c.baseline_results baseline count
    ok (record {
      record_results = true;
      inputs = inputs;
      current_results = current_results;
      baseline_results = baseline_results;
      blocks = suc c.blocks;
    })

  unfoldable pub run_blocks : ℕ → List (List (Option ℕ)) → Comparison → Result Comparison
  run_blocks max_len [] c = ok c
  run_blocks max_len (block ∷ blocks) c =
      run_block max_len block c >>= λ c. run_blocks max_len blocks c

  -- The rounds that are left, each on a shuffle of the lengths of the one before.
  unfoldable pub run_rounds : ℕ → ℕ → ℕ → List ℕ → Comparison → Result Comparison
  run_rounds zero max_len block_size length_arguments c = ok c
  run_rounds (suc rounds) max_len block_size length_arguments c =
      run_blocks max_len (grouper length_arguments block_size) c >>= λ c.
      run_rounds rounds max_len block_size (runners.shuffle_lengths rounds length_arguments) c

  -- compare_inputs, from the two libraries that were built and loaded on, with their suffixes.
  unfoldable pub compare_inputs :
      List ℕ → String → String → ℕ → ℕ → Result (List (String × Timings))
  compare_inputs length_arguments current_suffix baseline_suffix block_size min_count = do
    max_len ← max_of length_arguments
    let rounds = 1 + min_count / length length_arguments
    c ← run_rounds rounds max_len block_size length_arguments (record {
      record_results = false;
      inputs = zeros block_size;
      current_results = [];
      baseline_results = [];
      blocks = 0;
    })
    ok (
        dict_set ◌=s=◌ baseline_suffix c.baseline_results
          (dict_set ◌=s=◌ current_suffix c.current_results []))

-- The lengths as size_t values: a negative one raises.
unfoldable pub sizes_of : List ℤ → Result (List ℕ)
sizes_of [] = ok []
sizes_of (pos n ∷ sizes) = sizes_of sizes >>= λ rest. ok (n ∷ rest)
sizes_of (negsuc n ∷ sizes) = raise Error.overflow_error

module _ (runners : Runners) (calls : List Call) where
  -- compare_short_inputs and compare_long_inputs, on the calls of a trace.
  unfoldable pub compare_short_inputs :
      ℤ → Option ℤ → String → String → ℕ → ℕ → Result (List (String × Timings))
  compare_short_inputs length_limit length_fixup current_suffix baseline_suffix block_size
        min_count =
      sizes_of (full_call_sizes calls (pos 0) length_limit length_fixup) >>= λ length_arguments.
      compare_inputs runners length_arguments current_suffix baseline_suffix block_size min_count

  unfoldable pub compare_long_inputs :
      ℤ → Option ℤ → String → String → ℕ → ℕ → Result (List (String × Timings))
  compare_long_inputs length_min length_fixup current_suffix baseline_suffix block_size min_count =
      sizes_of (full_call_sizes calls length_min (pos (2 ^ 64)) length_fixup)
      >>= λ length_arguments.
          compare_inputs runners length_arguments current_suffix baseline_suffix block_size
            min_count
