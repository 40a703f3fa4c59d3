-- ===== src/Csm/Icdf.antt =====
-- _beta_icdf_lo and beta_icdf of t/csm.py: a bisection for a bound of a credible interval.
pub mod Bracket
use umash.Prelude.{ℕ, zero, suc, ◌+◌, ◌^◌, ltb, Bool, not, ◌&&◌, Option, none, some, if◌then◌else◌}
use umash.Python.{Result, ok, raise, ◌>>=◌, ◌>>◌, assert, Error}
use umash.Python.Float.{
  Float, positive, of_int, of_ratio, add, sub, mul, div, min_float, max_float, flt, fle,
}
use umash.Csm.Ulps.{Libm, next}
use umash.Csm.Incbeta.{incbeta}

abbrev pub beta_icdf_eps : Float
beta_icdf_eps = of_ratio 1 (10 ^ 10)

abbrev pub beta_icdf_goal : Float
beta_icdf_goal = of_ratio 1 1000

-- The test of the loop.
unfoldable pub goes_on : Float → Float → Bool
goes_on lo hi = flt (max_float beta_icdf_eps (add lo (mul lo beta_icdf_eps))) hi

unfoldable pub is_close_enough : Float → Float → Bool
is_close_enough lo hi = flt hi (add lo (mul lo beta_icdf_goal))

unfoldable pub midpoint : Float → Float → Float
midpoint lo hi = mul (of_ratio 1 2) (add hi lo)

-- How a round ends, from the result of _incbeta on.
pub data Interval : Type 0 where
  leaves : Interval
  tightens : Float → Float → Interval

unfoldable pub tighten : Float → Float → Float → Float → Option Float → Bool → Interval
tighten alpha lo hi x none close_enough = if close_enough then leaves else tightens lo x
tighten alpha lo hi x (some px) close_enough = if flt px alpha then tightens x hi else tightens lo x

module _ (libm : Libm) where
  unfoldable pub bisect_round : ℕ → ℕ → Float → Float → Float → Result Interval
  bisect_round a b alpha lo hi = do
    let x = midpoint lo hi
    let close_enough = is_close_enough lo hi
    px ← incbeta libm a b x alpha (if close_enough then some 1000 else none)
    ok (tighten alpha lo hi x px close_enough)

  -- The loop, on fuel.
  unfoldable pub bisect : ℕ → ℕ → ℕ → Float → Float → Float → Result (Float × Float)
  bisect zero a b alpha lo hi = raise Error.out_of_fuel
  bisect (suc fuel) a b alpha lo hi =
      if not (goes_on lo hi)
      then ok (lo, hi)
      else bisect_round a b alpha lo hi >>= λ interval. elim interval [
        | leaves ↦ ok (lo, hi)
        | tightens lo hi ↦ bisect fuel a b alpha lo hi
      ]

  -- The bits of two floats are less than this apart.
  abbrev pub bisect_fuel : ℕ
  bisect_fuel = 2 ^ 63

  unfoldable pub beta_icdf_lo : ℕ → ℕ → Float → Result (Float × Float)
  beta_icdf_lo a b alpha =
      assert (ltb a (2 ^ 44))
      >> assert (ltb b (2 ^ 44))
      >> assert (fle (positive 0) alpha && flt alpha (of_ratio 1 2))
      >> (do
        hi ← div (mul (of_int 1) (of_int a)) (of_int (a + b))
        if fle alpha (positive 0)
            then ok (positive 0, positive 0)
            else bisect bisect_fuel a b alpha (positive 0) hi)

  -- From the two calls of _beta_icdf_lo on, for alpha > 0.
  unfoldable pub icdf_lower : ℕ → ℕ → Float → Result (Float × Float)
  icdf_lower a b alpha = do
    found ← beta_icdf_lo a b alpha
    error ← next (sub found.1 found.0) 1
    ok (max_float (positive 0) found.0, min_float error (of_int 1))

  unfoldable pub icdf_upper : ℕ → ℕ → Float → Result (Float × Float)
  icdf_upper a b alpha = do
    found ← beta_icdf_lo b a alpha
    bound ← next (sub (of_int 1) found.0) 1
    error ← next (sub found.1 found.0) 1
    ok (min_float bound (of_int 1), min_float error (of_int 1))

  unfoldable pub beta_icdf : ℕ → ℕ → Float → Bool → Result (Float × Float)
  beta_icdf a b alpha upper =
      assert (ltb 0 a && ltb a (2 ^ 44))
      >> assert (ltb 0 b && ltb b (2 ^ 44))
      >> assert (fle (positive 0) alpha)
      >> (if fle alpha (positive 0)
          then ok (if upper then (of_int 1, positive 0) else (positive 0, positive 0))
          else (let alpha = min_float alpha (of_ratio 5 100) in
              if upper then icdf_upper a b alpha else icdf_lower a b alpha))
