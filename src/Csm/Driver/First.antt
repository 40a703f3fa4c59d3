-- ===== src/Csm/Driver/First.antt =====
-- The loop of csm_driver ends at the first trial at which it may.
use umash.Prelude.{
  ℕ, zero, suc, ◌+◌, ◌≤◌, ◌<◌, ◌≡◌, refl, ◌∙◌, Bool, true, false, Option, [], if◌then◌else◌, arith,
}
use umash.Python.{ok}
use umash.Python.Float.{Float, positive}
use umash.Csm.Ulps.{Libm}
use umash.Csm.Level.{csm}
use umash.Csm.Driver.{Stream, Options, Driver, driver_start, breaks, observe, driver_loop}

-- The draws that do not end, from a position on.
abbrev pub endless : (ℕ → Bool) → Stream ℕ
endless draws i = ok (Option.some (draws i, suc i))

-- The number of successes in the first n draws.
unfoldable pub success_count : (ℕ → Bool) → ℕ → ℕ
success_count draws zero = 0
success_count draws (suc n) = success_count draws n + (if draws n then 1 else 0)

pub success_count-le : (draws : ℕ → Bool) (n : ℕ) → success_count draws n ≤ n
unfolding success_count
success_count-le draws zero = omega arith
success_count-le draws (suc n) = let h = success_count-le draws n in ground arith

-- The state after n trials without a log.
abbrev pub after : (ℕ → Bool) → ℕ → Bool → Float → Driver
after draws n stop level = record {
  s = success_count draws n;
  n = n;
  stop = stop;
  log_level = level;
  next_print = 0;
  print_increment = 10;
  lines = [];
}

module _ (libm : Libm) (o : Options) (log_eps : Float) (draws : ℕ → Bool) where
  -- csm returns at the trials from the first to `last`, with these values.
  unfoldable pub IsTested : (ℕ → Bool) → (ℕ → Float) → ℕ → Type 0
  IsTested stops levels last =
      (n : ℕ)
      → n < last
      → csm libm (suc n) o.alpha (success_count draws (suc n)) log_eps
        ≡ ok (stops (suc n), levels (suc n))

  observe-after :
      (n : ℕ) (stop stop' : Bool) (level level' : Float)
      → o.has_file ≡ false
      → csm libm (suc n) o.alpha (success_count draws (suc n)) log_eps ≡ ok (stop', level')
      → observe libm o log_eps (draws n) (after draws n stop level)
        ≡ ok (after draws (suc n) stop' level')
  unfolding observe success_count
  observe-after n stop stop' level level' quiet tested =
      let e : n + 1 ≡ suc n = omega arith in rw (e, tested, quiet) refl

  pub one_round :
      (fuel n : ℕ) (stop stop' : Bool) (level level' : Float)
      → o.has_file ≡ false
      → csm libm (suc n) o.alpha (success_count draws (suc n)) log_eps ≡ ok (stop', level')
      → driver_loop libm (endless draws) o log_eps (suc fuel) (after draws n stop level) n ≡ (
          if breaks o (suc n) stop'
          then ok (after draws (suc n) stop' level', suc n)
          else driver_loop libm
              (endless draws)
              o
              log_eps
              fuel
              (after draws (suc n) stop' level')
              (suc n))
  unfolding driver_loop
  one_round fuel n stop stop' level level' quiet tested =
      rw (observe-after n stop stop' level level' quiet tested) refl

  module _ (stops : ℕ → Bool) (levels : ℕ → Float) (last : ℕ) where
    -- The loop does not break at the first `last` trials, and does at the next.
    unfoldable pub EndsAfter : Type 0
    EndsAfter =
        ((k : ℕ) → k < last → breaks o (suc k) (stops (suc k)) ≡ false)
        × (breaks o (suc last) (stops (suc last)) ≡ true)

    -- From the state after n trials on, with `left` trials before the last.
    first_from :
        (left n fuel : ℕ) (stop : Bool) (level : Float)
        → n + left ≡ last
        → left < fuel
        → o.has_file ≡ false
        → IsTested stops levels (suc last)
        → EndsAfter
        → driver_loop libm (endless draws) o log_eps fuel (after draws n stop level) n
          ≡ ok (after draws (suc last) (stops (suc last)) (levels (suc last)), suc last)
    unfolding IsTested EndsAfter
    first_from left n zero stop level place enough quiet tested ends = ground arith
    first_from zero n (suc fuel) stop level place enough quiet tested ends =
        let here : n ≡ last = omega arith in
        one_round fuel n stop (stops (suc n)) level (levels (suc n)) quiet (tested n (omega arith))
        ∙ rw here (rw (ends.1) refl)
    first_from (suc left) n (suc fuel) stop level place enough quiet tested ends =
        one_round fuel n stop (stops (suc n)) level (levels (suc n)) quiet (tested n (omega arith))
        ∙ rw (ends.0 n (omega arith)) (
            first_from left (suc n) fuel (stops (suc n)) (levels (suc n)) (omega arith)
              (omega arith) quiet tested ends)

    -- On draws that do not end, with csm returning at every trial up to the first at which the loop
    -- breaks, the loop ends at that trial, with the successes and the answer of csm there; any fuel of
    -- at least its number is enough.
    pub driver_loop_first :
        (fuel : ℕ)
        → last < fuel
        → o.has_file ≡ false
        → IsTested stops levels (suc last)
        → EndsAfter
        → driver_loop libm (endless draws) o log_eps fuel driver_start 0
          ≡ ok (after draws (suc last) (stops (suc last)) (levels (suc last)), suc last)
    unfolding success_count
    driver_loop_first fuel enough quiet tested ends =
        first_from last 0 fuel false (positive 0) (omega arith) enough quiet tested ends
