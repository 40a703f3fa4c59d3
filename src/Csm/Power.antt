-- ===== src/Csm/Power.antt =====
-- csm_power of t/csm.py: csm_driver on a stream of the outcomes of csm_driver.
use umash.Prelude.{ℕ, suc, ◌+◌, ◌^◌, Bool, false, not, none, some, List, if◌then◌else◌}
use umash.Python.{Result, ok, ◌>>=◌}
use umash.Python.Float.{Float, of_ratio, flt}
use umash.Csm.Ulps.{Libm}
use umash.Csm.Driver.{Stream, Options, Estimate, Line, csm_driver}

-- The draws of random.random(), in order; the state of a stream is the number of those that are gone.
module _ (libm : Libm) (random : ℕ → Float) where
  -- _bernoulli
  unfoldable pub bernoulli : Float → Stream ℕ
  bernoulli p i = ok (some (flt (random i) p, suc i))

  -- What _successes yields for an outcome.
  unfoldable pub is_success : Float → Float → Estimate → Bool
  is_success p alpha found =
      if not found.differs
      then false
      else if flt p alpha
      then flt found.rate alpha
      else flt alpha found.rate

  abbrev pub power_options : Float → Float → ℕ → Options
  power_options alpha eps max_count = record {
    alpha = alpha;
    eps = eps;
    max_count = some max_count;
    min_count = none;
    bound_eps = none;
    has_file = false;
  }

  -- _successes; max_count + 1 rounds are more than the inner driver takes.
  unfoldable pub successes : Float → Float → ℕ → Float → Stream ℕ
  successes p alpha max_count eps i = do
    found ← csm_driver libm (bernoulli p) (power_options alpha eps max_count) (max_count + 1) i
    ok (some (is_success p alpha found.0, found.2))

  -- The outer driver has no last round; the fuel bounds its rounds.
  unfoldable pub csm_power :
      Float → Float → ℕ → Float → Float → Bool → ℕ → Result (Estimate × List Line × ℕ)
  csm_power p alpha max_count eps success_rate has_file fuel =
      csm_driver libm (successes p alpha max_count eps)
        (record {
          alpha = success_rate;
          eps = of_ratio 1 (10 ^ 9);
          max_count = none;
          min_count = none;
          bound_eps = none;
          has_file = has_file;
        })
        fuel 0
