-- ===== src/Csm/Level.antt =====
-- csm of t/csm.py: the test of one count of successes.
use umash.Prelude.{ℕ, ◌+◌, ◌-◌, ◌^◌, ltb, leb, Bool, ◌&&◌, [], ◌∷◌}
use umash.Python.{Result, ok, ◌>>=◌, ◌>>◌, assert}
use umash.Python.Float.{Float, positive, of_int, neg, mul, flt}
use umash.Csm.Ulps.{Libm, next, log_up, log1p_up}
use umash.Csm.Sum.{sum_up}
use umash.Csm.Choose.{robbins_log_choose}

module _ (libm : Libm) where
  -- `log_level`
  unfoldable pub log_level_of : ℕ → Float → ℕ → Result Float
  log_level_of n alpha s = do
    a ← log_up libm (of_int (n + 1))
    b ← robbins_log_choose libm n s
    log_alpha ← log_up libm alpha
    c ← next (mul (of_int s) log_alpha) 1
    log_beta ← log1p_up libm (neg alpha)
    d ← next (mul (of_int (n - s)) log_beta) 1
    sum_up (a ∷ b ∷ c ∷ d ∷ [])

  unfoldable pub csm : ℕ → Float → ℕ → Float → Result (Bool × Float)
  csm n alpha s log_eps =
      assert (ltb 0 n && ltb n (2 ^ 49))
      >> assert (flt (positive 0) alpha && flt alpha (of_int 1))
      >> assert (leb s n)
      >> assert (flt log_eps (positive 0))
      >> (do log_level ← log_level_of n alpha s; ok (flt log_level log_eps, log_level))
