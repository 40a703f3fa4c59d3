-- ===== src/Sampler/Parallel.antt =====
-- _generate_in_parallel of t/exact_test_sampler.py: the coordinator that hands work units to a pool of
-- processes and yields what they return.
pub mod Units
pub mod Limits
pub mod Clamp
mod Tests
use umash.Prelude.{
  ℕ, zero, suc, ◌+◌, ◌-◌, ◌*◌, ◌/◌, min, max, leb, Bool, true, false, ◌||◌, not, Option, none, some,
  List, [], ◌∷◌, ◌++◌, length, if◌then◌else◌,
}
use umash.Python.{Result, ok, raise, ◌>>=◌, Error}
use umash.Python.Float.{Float, of_int, of_ratio, mul, sub, flt}

abbrev pub initial_batch_size : ℕ
initial_batch_size = 10

abbrev pub batch_size_growth_factor : ℕ
batch_size_growth_factor = 2

-- With cpu_count CPUs.
abbrev pub max_batch_size : ℕ → ℕ
max_batch_size cpu_count = 100 * 1000 * (cpu_count + 16) / 16

abbrev pub pool_size : ℕ → ℕ
pool_size cpu_count = max 1 (cpu_count - 1)

abbrev pub max_waiting : ℕ
max_waiting = 2

abbrev pub proportional_delay : Float
proportional_delay = of_ratio 5 100

abbrev pub min_delay : Float
min_delay = of_ratio 5 100

abbrev pub max_delay : Float
max_delay = of_int 10

abbrev pub poll_proportional_delay : Float
poll_proportional_delay = of_ratio 1 2

abbrev pub poll_min_delay : Float
poll_min_delay = of_ratio 1 100

abbrev pub poll_max_delay : Float
poll_max_delay = of_int 1

-- The two tests on a delay, in their order.
unfoldable pub clamp : Float → Float → Float → Float
clamp low high delay =
    let raised = if flt delay low then low else delay in if flt high raised then high else raised

-- The `delay` of add_work_unit, and that of backoff.
unfoldable pub unit_delay : Float → Float → Float
unit_delay begin now = clamp min_delay max_delay (mul proportional_delay (sub now begin))

unfoldable pub poll_delay : Float → Float → Float
poll_delay last_change now =
    clamp poll_min_delay poll_max_delay (mul poll_proportional_delay (sub now last_change))

-- The arguments of a call of the worker: those of the generator function, and the two limits.
pub record WorkUnit (Args : Type 0) : Type 0 where
  pub args : Args
  pub batch_size : ℕ
  pub delay : Float

-- The variables of the generator. A future is the number of its unit among those that were submitted.
pub record Coordinator (Args : Type 0) : Type 0 where
  pub pending : List ℕ
  pub submitted : List (WorkUnit Args)
  pub batch_size : ℕ

-- What one round of fill_pending_list reads: the length of the pool's task queue, the clock, and what
-- generator_args_fn returns.
pub record Reading (Args : Type 0) : Type 0 where
  pub qsize : ℕ
  pub now : Float
  pub args : Args

-- What one round of the loop reads.
pub record Round (Args : Type 0) : Type 0 where
  pub stopped : Bool
  pub ready : ℕ → Bool
  pub readings : ℕ → Reading Args

-- A future that is ready goes to the second list.
unfoldable pub split_ready : (ℕ → Bool) → List ℕ → List ℕ × List ℕ
split_ready ready [] = ([], [])
split_ready ready (future ∷ pending) =
    let rest = split_ready ready pending in
    if ready future then (rest.0, future ∷ rest.1) else (future ∷ rest.0, rest.1)

-- any_completed makes the batches grow.
unfoldable pub grown : ℕ → List ℕ → ℕ → ℕ
grown cpu_count [] batch_size = batch_size
grown cpu_count (future ∷ completed) batch_size =
    min (batch_size_growth_factor * batch_size) (max_batch_size cpu_count)

-- [future.get(0) for future in completed]
unfoldable pub get_all : {V : Type 0} → (ℕ → Result V) → List ℕ → Result (List V)
get_all result [] = ok []
get_all result (future ∷ completed) = do
  value ← result future
  values ← get_all result completed
  ok (value ∷ values)

module _ {Args : Type 0} (cpu_count : ℕ) (begin : Float) where
  unfoldable pub add_work_unit : Reading Args → Coordinator Args → Coordinator Args
  add_work_unit reading c = record {
    pending = c.pending ++ length c.submitted ∷ [];
    submitted =
        c.submitted
        ++ record {
          args = reading.args;
          batch_size = c.batch_size;
          delay = unit_delay begin reading.now;
        }
          ∷ [];
    batch_size = c.batch_size;
  }

  -- The loop of fill_pending_list, with the rounds that are left, the number of the next one, and
  -- any_change.
  unfoldable pub fill_loop :
      ℕ → ℕ → (ℕ → Reading Args) → Bool → Coordinator Args → Coordinator Args × Bool
  fill_loop zero i readings any_change c = (c, any_change)
  fill_loop (suc rounds) i readings any_change c = elim (leb max_waiting (readings i).qsize) [
    | true ↦ (c, any_change)
    | false ↦ fill_loop rounds (suc i) readings true (add_work_unit (readings i) c)
  ]

  unfoldable pub fill_pending_list : (ℕ → Reading Args) → Coordinator Args → Coordinator Args × Bool
  fill_pending_list readings c = fill_loop (pool_size cpu_count + max_waiting) 0 readings false c

  module _ {V : Type 0} (result : ℕ → Result V) where
    -- One round of the loop, which yields values.
    unfoldable pub round_step : Round Args → Coordinator Args → Result (List V × Coordinator Args)
    round_step round c = do
      let split = split_ready round.ready c.pending
      values ← get_all result split.1
      ok (
        values,
        (fill_pending_list round.readings (record {
          pending = split.0;
          submitted = c.submitted;
          batch_size = grown cpu_count split.1 c.batch_size;
        })).0,
      )

    -- The loop, for the given rounds: what it yields, and where it stands when the event has stopped it, an
    -- exception has ended it, or the rounds are over.
    unfoldable pub generate_loop :
        List (Round Args) → Coordinator Args → List V × Coordinator Args × Option Error
    generate_loop [] c = ([], c, none)
    generate_loop (round ∷ rounds) c =
        if round.stopped then ([], c, none) else elim (round_step round c) [
          | raise error ↦ ([], c, some error)
          | ok (values, next) ↦
              let rest = generate_loop rounds next in (values ++ rest.0, rest.1, rest.2)
        ]

    -- The set-up, with the readings of its call of fill_pending_list, and the loop.
    unfoldable pub generate_in_parallel :
        (ℕ → Reading Args) → List (Round Args) → List V × Coordinator Args × Option Error
    generate_in_parallel readings rounds = generate_loop rounds (
        (fill_pending_list readings
          (record { pending = []; submitted = []; batch_size = initial_batch_size })).0)
