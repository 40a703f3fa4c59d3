-- ===== src/Csm/Incbeta.antt =====
-- _incbeta of t/csm.py: a one-sided approximation of the regularised incomplete beta function, which
-- stops as soon as it is on one side of a threshold.
use umash.Prelude.{
  ℕ, zero, suc, ◌+◌, ◌-◌, ◌*◌, ◌%◌, ◌==◌, not, ◌&&◌, Option, none, some, [], ◌∷◌, if◌then◌else◌,
}
use umash.Python.{Result, ok, ◌>>=◌, ◌>>◌, assert}
use umash.Python.Float.{
  Float, positive, of_int, of_ratio, neg, add, sub, mul, div, min_float, max_float, flt, feq,
}
use umash.Csm.Ulps.{Libm, libm_error_limit, next, log_up, log_down, log1p_up, log1p_down}
use umash.Csm.Sum.{sum_up, sum_update_up}
use umash.Csm.Choose.{robbins_log_choose}

-- How a round of the loop ends.
pub data Step : Type 0 where
  continue : Float × Float → Float → Step
  returns : Float → Step

module _ (libm : Libm) where
  -- math.exp(log_initial), over-approximated.
  unfoldable pub initial_product : ℕ → ℕ → Float → Result Float
  initial_product a b x = do
    l1 ← robbins_log_choose libm (a + b - 1) a
    log_x ← log_up libm x
    l2 ← next (mul (of_int a) log_x) 1
    log_1_x ← log1p_up libm (neg x)
    l3 ← next (mul (of_int b) log_1_x) 1
    log_initial ← sum_up (l1 ∷ l2 ∷ l3 ∷ [])
    initial ← libm.exp log_initial
    next initial libm_error_limit

  -- min(next(x * next(ratio + 1)), 1.0)
  unfoldable pub multiplicand_of : ℕ → ℕ → Float → ℕ → Result Float
  multiplicand_of a b x i = do
    quotient ← div (sub (of_int b) (of_int 1)) (of_int (a + i))
    ratio ← next quotient 1
    factor ← next (add ratio (of_int 1)) 1
    scaled ← next (mul x factor) 1
    ok (min_float scaled (of_int 1))

  -- From `tail_hi` on: the harder test for termination.
  unfoldable pub check_tail : Float → Float → Float → Float → Float × Float → Result Step
  check_tail x threshold multiplicand product acc = do
    log_multiplicand ← log_up libm multiplicand
    log_complement ← log1p_down libm (neg multiplicand)
    factor_hi ← libm.exp (sub log_multiplicand log_complement)
    let tail_hi = mul product factor_hi
    log_x ← log_down libm x
    log_1_x ← log1p_up libm (neg x)
    factor_lo ← libm.exp (sub log_x log_1_x)
    let tail_lo = mul product factor_lo
    let delta = sub (sub threshold acc.0) acc.1
    ok (
        if flt (mul (of_int 2) delta) tail_lo
        then returns (max_float (add acc.0 tail_lo) threshold)
        else if flt tail_hi (mul (of_ratio 1 2) delta)
        then returns acc.0
        else continue acc product)

  -- The body of the loop.
  unfoldable pub incbeta_round : ℕ → ℕ → Float → Float → ℕ → Float × Float → Float → Result Step
  incbeta_round a b x threshold i acc product = do
    multiplicand ← multiplicand_of a b x i
    let old_acc = acc.0
    product ← next (mul product multiplicand) 1
    acc ← sum_update_up acc product
    if flt threshold acc.0
        then ok (returns acc.0)
        else if not (feq acc.0 old_acc) && not (i % 128 == 0)
        then ok (continue acc product)
        else check_tail x threshold multiplicand product acc

  -- The rounds that are left, with the next `i`.
  unfoldable pub incbeta_loop :
      ℕ → ℕ → Float → Float → ℕ → ℕ → Float × Float → Float → Result (Option Float)
  incbeta_loop a b x threshold zero i acc product = ok none
  incbeta_loop a b x threshold (suc left) i acc product =
      incbeta_round a b x threshold i acc product >>= λ step. elim step [
        | continue acc product ↦ incbeta_loop a b x threshold left (suc i) acc product
        | returns result ↦ ok (some result)
      ]

  abbrev pub limit_or : Option ℕ → ℕ → ℕ
  limit_or none n = n
  limit_or (some limit) n = limit

  unfoldable pub incbeta : ℕ → ℕ → Float → Float → Option ℕ → Result (Option Float)
  incbeta a b x threshold limit = do
    mean ← div (mul (of_int 1) (of_int a)) (of_int (a + b))
    assert (flt x mean)
    product ← initial_product a b x
    incbeta_loop a b x threshold (limit_or limit (10 * (a + b + 1000))) 1 (product, positive 0)
        product
