-- ===== src/Csm/Driver/Bounded.antt =====
-- The number of trials of csm_driver: more than min_count, and at most max_count unless that is not more
-- than min_count.
use umash.Prelude.{ℕ, suc, ◌≤◌, ◌<◌, ◌≡◌, ◌⊎◌, Bool, true, max, Option, none, some}
use umash.Python.{ok}
use umash.Python.Float.{Float}
use umash.Csm.Ulps.{Libm}
use umash.Csm.Level.{csm}
use umash.Csm.Driver.{Options, Driver}

-- The trials that the loop makes whatever csm says.
unfoldable pub least : Option ℕ → ℕ
least none = 0
least (some min_count) = min_count

module _ (libm : Libm) (o : Options) (log_eps : Float) (draws : ℕ → Bool) (max_count : ℕ) where
  -- The last trial at which the loop can end.
  unfoldable pub last_trial : ℕ
  last_trial = max max_count (suc (least o.min_count))

  -- csm returns for all counts of that many trials.
  unfoldable pub CsmReturns : Type 0
  CsmReturns =
      (n s : ℕ)
      → n < last_trial
      → s ≤ suc n
      → (stop : Bool) × (level : Float) × (csm libm (suc n) o.alpha s log_eps ≡ ok (stop, level))

  -- How the loop may end.
  pub IsEnd : Driver → Type 0
  IsEnd d =
      (d.n ≤ last_trial)
      × (least o.min_count < d.n)
      × (d.s ≤ d.n)
      × ((d.stop ≡ true) ⊎ (max_count ≤ d.n))
