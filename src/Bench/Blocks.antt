-- ===== src/Bench/Blocks.antt =====
-- The blocks of the benchmark driver (t/umash_bench.py): lengths by the block, and the table of timings by
-- length.
pub mod Grouper
use umash.Prelude.{
  ℕ, zero, suc, ◌+◌, ◌-◌, ◌==◌, Bool, true, false, Option, none, some, List, [], ◌∷◌, ◌++◌, take,
  drop, length,
}
use umash.Python.{Result, ok, raise, ◌>>=◌, Error}
use umash.Python.Dict.{dict_change}

-- The next n values of an iterator, with None for those that it does not have.
unfoldable pub next_block {ℓ} : {A : Type ℓ} → ℕ → List A → List (Option A)
next_block zero xs = []
next_block (suc n) [] = none ∷ next_block n []
next_block (suc n) (x ∷ xs) = some x ∷ next_block n xs

-- The blocks up to the last that has a value; each but an empty one takes at least one, so that as much
-- fuel as there are values is enough.
unfoldable pub grouper_loop {ℓ} : {A : Type ℓ} → ℕ → List A → ℕ → List (List (Option A))
grouper_loop fuel [] n = []
grouper_loop zero (x ∷ xs) n = []
grouper_loop (suc fuel) (x ∷ xs) n = next_block n (x ∷ xs) ∷ grouper_loop fuel (drop n (x ∷ xs)) n

-- grouper(iterable, n): zip_longest of no iterators is empty.
unfoldable pub grouper {ℓ} : {A : Type ℓ} → List A → ℕ → List (List (Option A))
grouper xs zero = []
grouper xs (suc n) = grouper_loop (length xs) xs (suc n)

-- Lists of timings by length: a defaultdict(list).
abbrev pub Timings : Type 0
Timings = List (ℕ × List ℕ)

-- The rest of the loop of _update_results, from the index i on.
unfoldable pub update_results_loop : Timings → List ℕ → (ℕ → ℕ) → ℕ → ℕ → Result Timings
update_results_loop acc lengths timings zero i = ok acc
update_results_loop acc [] timings (suc left) i = raise Error.index_error
update_results_loop acc (length ∷ lengths) timings (suc left) i =
    update_results_loop (dict_change ◌==◌ length [] (λ ts. ts ++ timings i ∷ []) acc) lengths
      timings left (suc i)

-- _update_results, with the buffer of timings as the function that reads it.
unfoldable pub update_results : Timings → List ℕ → (ℕ → ℕ) → ℕ → Result Timings
update_results acc lengths timings count = update_results_loop acc lengths timings count 0

-- The loop of compare_inputs that copies a block to `inputs`: the count of its values, and the buffer.
unfoldable pub fill_inputs : List (Option ℕ) → List ℕ → Result (ℕ × List ℕ)
fill_inputs [] inputs = ok (0, inputs)
fill_inputs (none ∷ block) inputs = ok (0, inputs)
fill_inputs (some value ∷ block) [] = raise Error.index_error
fill_inputs (some value ∷ block) (old ∷ inputs) = do
  rest ← fill_inputs block inputs
  ok (suc rest.0, value ∷ rest.1)
