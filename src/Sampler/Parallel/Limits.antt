-- ===== src/Sampler/Parallel/Limits.antt =====
-- The limits of _generate_in_parallel: how large its batches are, and how many units it submits at once.
use umash.Prelude.{ℕ, ◌+◌, ◌≤◌, All}
use umash.Python.Float.{Float}
use umash.Python.Float.Ordered.{IsFinite}
use umash.Sampler.Parallel.{
  WorkUnit, Coordinator, Reading, max_waiting, pool_size, initial_batch_size, max_batch_size,
  min_delay, max_delay,
}
use umash.Sampler.Parallel.Clamp.{IsWithin}

abbrev pub IsBatchSize : ℕ → ℕ → Type 0
IsBatchSize cpu_count n = (initial_batch_size ≤ n) × (n ≤ max_batch_size cpu_count)

-- The most that one call of fill_pending_list submits.
abbrev pub most_units : ℕ → ℕ
most_units cpu_count = pool_size cpu_count + max_waiting

module _ {Args : Type 0} (cpu_count : ℕ) (begin : Float) where
  -- A unit within the limits.
  abbrev pub IsUnit : WorkUnit Args → Type 0
  IsUnit unit = IsBatchSize cpu_count unit.batch_size × IsWithin min_delay max_delay unit.delay

  -- What holds of the coordinator: its batch size is in range, and so are all units.
  pub record IsModest (c : Coordinator Args) : Type 0 where
    pub size : IsBatchSize cpu_count c.batch_size
    pub units : All IsUnit c.submitted

  -- The clock of a round's readings gives finite times.
  abbrev pub AreFinite : (ℕ → Reading Args) → Type 0
  AreFinite readings = (i : ℕ) → IsFinite (readings i).now
