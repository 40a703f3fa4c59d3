-- ===== src/Sampler/Buffer.antt =====
-- BufferedIterator of t/exact_test_sampler.py: threads that read iterators into one bounded queue, and
-- the thread that takes the values out.
pub mod Log
pub mod Order
pub mod Winds
pub mod Budget
pub mod Exit
pub mod Lost
mod Tests
use umash.Prelude.{
  ℕ, zero, suc, ◌+◌, ◌-◌, ◌*◌, ◌<◌, ◌≡◌, ltb, Bool, true, false, Option, none, some, List, [], ◌∷◌,
  ◌++◌, length, if◌then◌else◌,
}
use umash.Prelude.Family.{update}
use umash.Python.{Gen, Error}

abbrev pub buffer_size : ℕ
buffer_size = 4

-- The size of the queue for n iterators.
abbrev pub capacity : ℕ → ℕ
capacity n = buffer_size + 2 * n

-- The queue, of values and Nones, and whether the event `done` is set.
pub record Shared (V : Type 0) : Type 0 where
  pub queue : List (Option V)
  pub done : Bool

-- queue.put_nowait(None), with queue.Full passed over.
unfoldable pub put_none : {V : Type 0} → ℕ → List (Option V) → List (Option V)
put_none size queue = if ltb (length queue) size then queue ++ none ∷ [] else queue

-- Where a worker stands in _pull_from_iterator, with what its iterator has left.
pub data Pc (V : Type 0) : Type 0 where
  pulling : Gen V → Pc V  -- the head of the loop
  got : V → Gen V → Pc V  -- before the first test of `done`
  putting : V → Gen V → Pc V  -- before queue.put, which waits for room
  checking : Gen V → Pc V  -- before the second test
  ending : Pc V  -- before done.set
  waking : Pc V  -- before put_nowait
  ended : Pc V

-- One step of a worker. An exception of the iterator ends the thread at once.
pub data Move {V : Type 0} (size : ℕ) (m : Shared V) : Pc V → Shared V → Pc V → Type 0 where
  pull : {v : V} {g : Gen V} → Move size m (pulling (Gen.yield v g)) m (got v g)
  exhaust : Move size m (pulling Gen.stop) m ending
  crash : {e : Error} → Move size m (pulling (Gen.fail e)) m ended
  stop_early : {v : V} {g : Gen V} → m.done ≡ true → Move size m (got v g) m ending
  go_on : {v : V} {g : Gen V} → m.done ≡ false → Move size m (got v g) m (putting v g)
  put :
      {v : V} {g : Gen V}
      → length m.queue < size
      → Move size m (putting v g) (record m { queue = m.queue ++ some v ∷ [] }) (checking g)
  break_off : {g : Gen V} → m.done ≡ true → Move size m (checking g) m ending
  again : {g : Gen V} → m.done ≡ false → Move size m (checking g) m (pulling g)
  set_done : Move size m ending (record m { done = true }) waking
  wake : Move size m waking (record m { queue = put_none size m.queue }) ended

-- Where the thread stands that has entered the context. The number of workers that the loop of __exit__
-- has yet to come to counts down, and so does that of the calls of get_nowait for one of them.
pub data ReaderPc : Type 0 where
  reading : ReaderPc  -- in the body of the `with` statement
  closing : ReaderPc  -- before put_nowait in __exit__
  exiting : ℕ → ReaderPc  -- the head of the loop; at 0 it has returned
  draining : ℕ → ℕ → ReaderPc
  joining : ℕ → ReaderPc

-- All that the threads share, with the history of what was taken out of the queue.
pub record State (V : Type 0) : Type 0 where
  pub shared : Shared V
  pub removed : List (Option V)
  pub pc : ℕ → Pc V
  pub reader : ReaderPc

-- After __init__ and __enter__.
unfoldable pub entered : {V : Type 0} → (ℕ → Gen V) → State V
entered iterators = record {
  shared = record { queue = []; done = false };
  removed = [];
  pc = λ i. pulling (iterators i);
  reader = reading;
}

-- One step of n workers and the reader. A get_nowait in the body that finds the queue empty raises and
-- changes nothing.
pub data Step {V : Type 0} (n : ℕ) (block_on_exit : Bool) (s : State V) : State V → Type 0 where
  work :
      (i : ℕ) {m : Shared V} {p : Pc V}
      → i < n
      → Move (capacity n) s.shared (s.pc i) m p
      → Step n block_on_exit s (record s { shared = m; pc = update s.pc i p })
  get :
      {x : Option V} {q : List (Option V)}
      → s.reader ≡ reading
      → s.shared.queue ≡ x ∷ q
      → Step n block_on_exit s (record s {
        shared = record { queue = q; done = s.shared.done };
        removed = s.removed ++ x ∷ [];
      })
  leave :
      s.reader ≡ reading
      → Step n block_on_exit s
          (record s { shared = record { queue = s.shared.queue; done = true }; reader = closing })
  wake_reader :
      s.reader ≡ closing
      → Step n block_on_exit s (record s {
        shared = record { queue = put_none (capacity n) s.shared.queue; done = s.shared.done };
        reader = exiting n;
      })
  next_worker :
      {k : ℕ}
      → s.reader ≡ exiting (suc k)
      → Step n block_on_exit s (record s { reader = draining k n })
  drain :
      {k j : ℕ} {x : Option V} {q : List (Option V)}
      → s.reader ≡ draining k (suc j)
      → s.shared.queue ≡ x ∷ q
      → Step n block_on_exit s (record s {
        shared = record { queue = q; done = s.shared.done };
        removed = s.removed ++ x ∷ [];
        reader = draining k j;
      })
  drained :
      {k : ℕ}
      → s.reader ≡ draining k zero
      → Step n block_on_exit s (record s { reader = joining k })
  find_empty :
      {k j : ℕ}
      → s.reader ≡ draining k (suc j)
      → s.shared.queue ≡ []
      → Step n block_on_exit s (record s { reader = joining k })
  join :
      {k : ℕ}
      → s.reader ≡ joining k
      → (block_on_exit ≡ true → s.pc (n - suc k) ≡ ended)
      → Step n block_on_exit s (record s { reader = exiting k })

pub data Reach {V : Type 0} (n : ℕ) (block_on_exit : Bool) (iterators : ℕ → Gen V)
    : State V → Type 0 where
  start : Reach n block_on_exit iterators (entered iterators)
  later :
      {s t : State V}
      → Reach n block_on_exit iterators s
      → Step n block_on_exit s t
      → Reach n block_on_exit iterators t
