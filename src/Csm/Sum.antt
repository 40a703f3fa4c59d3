-- ===== src/Csm/Sum.antt =====
-- The one-sided Kahan summation of t/csm.py: an accumulator is an unevaluated sum of two floats.
pub mod Upper
pub mod Finish
pub mod Rounding
pub mod Dekker
pub mod Bound
mod Tests
use umash.Prelude.{ℕ, Bool, true, false, List, [], ◌∷◌, if◌then◌else◌}
use umash.Python.{Result, ok, raise, ◌>>=◌, ◌>>◌, assert}
use umash.Python.Float.{Float, positive, flt, fle, abs, add, sub, min_float}
use umash.Csm.Ulps.{next}

-- The Dekker sum of a and b, for |a| >= |b|.
unfoldable pub dekker_sum : Float → Float → Float × Float
dekker_sum a b = let x = add a b in let b_virtual = sub x a in let y = sub b b_virtual in (x, y)

-- The term with the compensation added, from `shifted` on.
unfoldable pub adjust_term : Float → Float → Result Float
adjust_term compensation term = do
  shifted ← next (add term compensation) 1
  ok (if fle compensation (positive 0) then min_float term shifted else shifted)

-- From `shifted` on, with acc and term in order.
unfoldable pub sum_update_ordered : Float → Float → Float → Result (Float × Float)
sum_update_ordered acc compensation term =
    adjust_term compensation term >>= λ term. ok (dekker_sum acc term)

unfoldable pub sum_update_up : Float × Float → Float → Result (Float × Float)
sum_update_up accumulator term =
    if flt (abs accumulator.0) (abs term)
    then sum_update_ordered term accumulator.1 accumulator.0
    else sum_update_ordered accumulator.0 accumulator.1 term

-- `bound`, on both branches.
unfoldable pub finish_bound : Float → Float → Result Float
finish_bound acc compensation = do
  above ← next (add acc compensation) 1
  ok (if flt (positive 0) compensation then above else min_float acc above)

unfoldable pub sum_update_finish : Float × Float → Result (Float × Float)
sum_update_finish accumulator = do
  bound ← finish_bound accumulator.0 accumulator.1
  let delta = sub bound accumulator.0
  assert (fle accumulator.1 delta)
  ok (bound, sub accumulator.1 delta)

-- The loop of sum_up.
unfoldable pub sum_loop : Float × Float → List Float → Result (Float × Float)
sum_loop accumulator [] = ok accumulator
sum_loop accumulator (value ∷ values) =
    sum_update_up accumulator value >>= λ accumulator. sum_loop accumulator values

unfoldable pub sum_up : List Float → Result Float
sum_up values = do
  accumulator ← sum_loop (positive 0, positive 0) values
  finished ← sum_update_finish accumulator
  ok finished.0
