-- ===== src/Csm/Choose.antt =====
-- robbins_log_choose of t/csm.py: an upper bound for the logarithm of a binomial coefficient.
use umash.Prelude.{ℕ, ◌+◌, ◌-◌, ◌*◌, ◌^◌, ◌==◌, ltb, leb, ◌&&◌, ◌||◌, [], ◌∷◌, if◌then◌else◌}
use umash.Python.{Result, ok, ◌>>=◌, ◌>>◌, assert}
use umash.Python.Float.{Float, positive, of_int, of_ratio, neg, add, mul, div}
use umash.Csm.Ulps.{Libm, next, log_up, log_down}
use umash.Csm.Sum.{sum_up}

-- -8277062471433908.0 * (2**-53)
unfoldable pub minus_log_sqrt_2pi : Float
minus_log_sqrt_2pi = mul (neg (of_int 8277062471433908)) (of_ratio 1 (2 ^ 53))

module _ (libm : Libm) where
  -- next((k + 0.5) * log_up(k)), and next(-(k + 0.5) * log_down(k)).
  unfoldable pub stirling_up : ℕ → Result Float
  stirling_up k = do l ← log_up libm (of_int k); next (mul (add (of_int k) (of_ratio 1 2)) l) 1

  unfoldable pub minus_stirling_up : ℕ → Result Float
  minus_stirling_up k = do
    l ← log_down libm (of_int k)
    next (mul (neg (add (of_int k) (of_ratio 1 2))) l) 1

  -- The sum for the cases that are not easy.
  unfoldable pub robbins_sum : ℕ → ℕ → Result Float
  robbins_sum n s = do
    let n_s = n - s
    l1 ← stirling_up n
    l2 ← minus_stirling_up s
    l3 ← minus_stirling_up n_s
    q1 ← div (of_int 1) (of_int (12 * n))
    r1 ← next q1 1
    q2 ← div (neg (of_int 1)) (of_int (12 * s + 1))
    r2 ← next q2 1
    q3 ← div (neg (of_int 1)) (of_int (12 * n_s + 1))
    r3 ← next q3 1
    sum_up (minus_log_sqrt_2pi ∷ l1 ∷ l2 ∷ l3 ∷ r1 ∷ r2 ∷ r3 ∷ [])

  unfoldable pub robbins_log_choose : ℕ → ℕ → Result Float
  robbins_log_choose n s =
      assert (ltb 0 n && ltb n (2 ^ 49))
      >> assert (leb s n)
      >> (if s == 0 || s == n
          then ok (positive 0)
          else if s == 1 || s == n - 1
          then log_up libm (of_int n)
          else robbins_sum n s)
