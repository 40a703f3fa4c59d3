-- ===== src/Sampler/Simulate.antt =====
-- ExactTestSampler.simulate of t/exact_test_sampler.py: one analysis on the side of the sampler.
use umash.Prelude.{ℕ, ◌+◌, Bool, not, List, if◌then◌else◌}
use umash.Python.{Gen, Result}
use umash.Sampler.Requests.{ExactTestParameters, mark_cancelled}

-- The loop over the values of _generate_in_parallel, from the i-th reading of params.done on.
unfoldable pub simulate_loop : {V : Type 0} → (ℕ → Bool) → ℕ → Gen V → Gen V
simulate_loop done i Gen.stop = Gen.stop
simulate_loop done i (Gen.fail error) = Gen.fail error
simulate_loop done i (Gen.yield value values) =
    let rest = simulate_loop done (i + 2) values in
    if done i then Gen.stop else Gen.yield value (if done (i + 1) then Gen.stop else rest)

-- What simulate yields, with whether the wait for params.ready succeeded, and the parameters as the
-- `finally` leaves them, from those that the updater left.
unfoldable pub simulate :
    {V Params : Type 0}
    → (List ℕ → Result Params)
    → Bool
    → (ℕ → Bool)
    → Gen V
    → ExactTestParameters Params
    → Gen V × ExactTestParameters Params
simulate loads ready done values params =
    let ended = mark_cancelled loads params in
    if not ready
    then (Gen.stop, ended)
    else if done 0
    then (Gen.stop, ended)
    else (simulate_loop done 1 values, ended)
