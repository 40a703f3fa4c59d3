-- ===== src/Bench/Tests.antt =====
-- Runs of the benchmark driver on small inputs.
use umash.Prelude.{ℕ, ◌≡◌, List, [], ◌∷◌}
use umash.Bench.Blocks.{grouper}
use umash.Bench.Blocks.Grouper.{all_values, all_values-grouper}
use umash.Bench.Traces.{Call}

all_values-grouper_example : all_values {A = ℕ} (grouper (5 ∷ 6 ∷ 7 ∷ []) 2) ≡ 5 ∷ 6 ∷ 7 ∷ []
all_values-grouper_example = all_values-grouper {A = ℕ} 1 (5 ∷ 6 ∷ 7 ∷ [])

abbrev calls : List Call
calls =
    record { tid = 1; size = 3 } ∷ record { tid = 2; size = 9 } ∷ record { tid = 1; size = 2 } ∷ []
