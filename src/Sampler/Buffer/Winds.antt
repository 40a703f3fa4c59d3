-- ===== src/Sampler/Buffer/Winds.antt =====
-- What the workers of a BufferedIterator do once `done` is set.
use umash.Prelude.{
  ℕ, ◌+◌, ◌≤◌, ◌<◌, ◌≡◌, true, Option, none, some, List, [], ◌∷◌, length, length-append, arith,
}
use umash.Sampler.Buffer.{
  Shared, put_none, Pc, pulling, got, putting, checking, ending, waking, ended, Move, pull, exhaust,
  crash, stop_early, go_on, put, break_off, again, set_done, wake,
}

module _ {V : Type 0} where
  -- How many entries a worker may yet put into the queue once `done` is set.
  abbrev pub credit : Pc V → ℕ
  credit (putting v g) = 2
  credit ended = 0
  credit _ = 1

  pub credit_bound : (p : Pc V) → credit p ≤ 2
  credit_bound (pulling g) = omega arith
  credit_bound (got v g) = omega arith
  credit_bound (putting v g) = omega arith
  credit_bound (checking g) = omega arith
  credit_bound ending = omega arith
  credit_bound waking = omega arith
  credit_bound ended = omega arith

  -- How many steps a worker is away from its end once `done` is set.
  abbrev pub rank : Pc V → ℕ
  rank (pulling g) = 4
  rank (got v g) = 3
  rank (putting v g) = 4
  rank (checking g) = 3
  rank ending = 2
  rank waking = 1
  rank ended = 0

  pub rank_bound : (p : Pc V) → rank p ≤ 4
  rank_bound (pulling g) = omega arith
  rank_bound (got v g) = omega arith
  rank_bound (putting v g) = omega arith
  rank_bound (checking g) = omega arith
  rank_bound ending = omega arith
  rank_bound waking = omega arith
  rank_bound ended = omega arith

  pub length-put_none :
      (size : ℕ) (q : List (Option V))
      → length q ≤ size
      → (length q ≤ length (put_none size q))
        × (length (put_none size q) ≤ length q + 1)
        × (length (put_none size q) ≤ size)
  unfolding put_none
  length-put_none size q h = ground (arith, length-append q (none ∷ []))

  -- What a worker does once `done` is set: it comes nearer to its end, and what it puts into the queue was
  -- counted.
  pub record Winds (size : ℕ) (m m' : Shared V) (p p' : Pc V) : Type 0 where
    pub fits : length m'.queue ≤ size
    pub counted : m.done ≡ true → length m'.queue + credit p' ≤ length m.queue + credit p
    pub nearer : m.done ≡ true → rank p' < rank p
    pub grows : m.done ≡ true → m'.done ≡ true

  pub Move-Winds :
      {size : ℕ} {m m' : Shared V} {p p' : Pc V}
      → Move size m p m' p'
      → length m.queue ≤ size
      → Winds size m m' p p'
  Move-Winds pull h = ground arith
  Move-Winds exhaust h = ground arith
  Move-Winds crash h = ground arith
  Move-Winds (stop_early k) h = ground arith
  Move-Winds (go_on k) h = ground arith
  Move-Winds {m} (put {v} k) h = ground (arith, length-append m.queue (some v ∷ []))
  Move-Winds (break_off k) h = ground arith
  Move-Winds (again k) h = ground arith
  Move-Winds set_done h = ground arith
  Move-Winds {size} {m} wake h = ground (arith, length-put_none size m.queue)
