-- ===== src/Csm/Driver.antt =====
-- csm_driver of t/csm.py: the test on a stream of booleans.
pub mod First
pub mod Bounded
use umash.Prelude.{
  ℕ, zero, suc, ◌+◌, ◌-◌, ◌*◌, ◌==◌, ltb, leb, Bool, true, false, not, ◌&&◌, Option, none, some,
  List, [], ◌∷◌, ◌++◌, if◌then◌else◌,
}
use umash.Python.{Result, ok, raise, ◌>>=◌, ◌>>◌, assert, Error}
use umash.Python.Float.{Float, positive, of_int, of_ratio, neg, mul, div, flt, fle}
use umash.Csm.Ulps.{Libm, log_down}
use umash.Csm.Level.{csm}
use umash.Csm.Icdf.{beta_icdf}

-- A stream that is drawn from: what the next() of its iterator does in a state, `none` being the
-- StopIteration.
abbrev pub Stream {ℓ} : Type ℓ → Type ℓ
Stream State = State → Result (Option (Bool × State))

-- A list as a stream.
unfoldable pub list_stream : Stream (List Bool)
list_stream [] = ok none
list_stream (x ∷ xs) = ok (some (x, xs))

-- A line of the log.
pub record Line : Type 0 where
  pub n : ℕ
  pub rate : Float
  pub lower : Float
  pub upper : Float
  pub level : Float

-- The arguments of csm_driver after the stream; `has_file` is `file is not None`.
pub record Options : Type 0 where
  pub alpha : Float
  pub eps : Float
  pub max_count : Option ℕ
  pub min_count : Option ℕ
  pub bound_eps : Option Float
  pub has_file : Bool

-- The variables of the loop, and the lines printed.
pub record Driver : Type 0 where
  pub s : ℕ
  pub n : ℕ
  pub stop : Bool
  pub log_level : Float
  pub next_print : ℕ
  pub print_increment : ℕ
  pub lines : List Line

-- What csm_driver returns.
pub record Estimate : Type 0 where
  pub differs : Bool
  pub rate : Float
  pub lower : Float
  pub upper : Float

abbrev pub driver_start : Driver
driver_start = record {
  s = 0;
  n = 0;
  stop = false;
  log_level = positive 0;
  next_print = 0;
  print_increment = 10;
  lines = [];
}

-- `min_count is not None and n <= min_count`
unfoldable pub must_continue : Option ℕ → ℕ → Bool
must_continue none n = false
must_continue (some min_count) n = leb n min_count

-- `max_count is not None and n >= max_count`
unfoldable pub reaches : Option ℕ → ℕ → Bool
reaches none n = false
reaches (some max_count) n = leb max_count n

-- Whether the loop breaks after a test.
unfoldable pub breaks : Options → ℕ → Bool → Bool
breaks o n stop =
    if must_continue o.min_count n then false else if stop then true else reaches o.max_count n

-- `confidence`
unfoldable pub confidence : Options → Result Float
confidence o = elim o.bound_eps [
  | none ↦ do half ← div o.eps (of_int 2); ok (mul (of_ratio 1 2) half)
  | some bound_eps ↦ ok (mul (of_ratio 1 2) bound_eps)
]

module _ (libm : Libm) where
  -- _bound
  unfoldable pub bound : Options → ℕ → ℕ → Bool → Result Float
  bound o s n upper = do
    level ← confidence o
    found ← beta_icdf libm (s + 1) (n - s + 1) level upper
    ok found.0

  -- _log_out
  unfoldable pub log_out : Options → Driver → Result Driver
  log_out o d = do
    let next_print = d.next_print + d.print_increment
    let print_increment =
        if next_print == 10 * d.print_increment then d.print_increment * 10 else d.print_increment
    rate ← div (mul (of_int 1) (of_int d.s)) (of_int d.n)
    lower ← bound o d.s d.n false
    upper ← bound o d.s d.n true
    log_10 ← libm.log (of_int 10)
    level ← div (neg d.log_level) log_10
    ok (record {
      s = d.s;
      n = d.n;
      stop = d.stop;
      log_level = d.log_level;
      next_print = next_print;
      print_increment = print_increment;
      lines =
          d.lines
          ++ record { n = d.n; rate = rate; lower = lower; upper = upper; level = level } ∷ [];
    })

  -- The body of the loop, down to the log.
  unfoldable pub observe : Options → Float → Bool → Driver → Result Driver
  observe o log_eps success d = do
    let n = d.n + 1
    let s = d.s + (if success then 1 else 0)
    tested ← csm libm n o.alpha s log_eps
    let tried : Driver = record {
      s = s;
      n = n;
      stop = tested.0;
      log_level = tested.1;
      next_print = d.next_print;
      print_increment = d.print_increment;
      lines = d.lines;
    }
    if o.has_file && leb d.next_print n then log_out o tried else ok tried

  -- The loop over the stream, on fuel: the state in which it ends, and the stream that is left.
  unfoldable pub driver_loop {ℓ} :
      {State : Type ℓ}
      → Stream State
      → Options
      → Float
      → ℕ
      → Driver
      → State
      → Result (Driver × State)
  driver_loop stream o log_eps zero d rest = raise Error.out_of_fuel
  driver_loop stream o log_eps (suc fuel) d rest = stream rest >>= λ drawn. elim drawn [
    | none ↦ ok (d, rest)
    | some draw ↦ observe o log_eps draw.0 d >>= λ d.
        if breaks o d.n d.stop then ok (d, draw.1) else driver_loop stream o log_eps fuel d draw.1
  ]

  -- The return statement.
  unfoldable pub estimate : Options → Driver → Result Estimate
  estimate o d = do
    rate ← div (mul (of_int 1) (of_int d.s)) (of_int d.n)
    lower ← bound o d.s d.n false
    upper ← bound o d.s d.n true
    ok (record { differs = d.stop; rate = rate; lower = lower; upper = upper })

  unfoldable pub csm_driver {ℓ} :
      {State : Type ℓ} → Stream State → Options → ℕ → State → Result (Estimate × List Line × State)
  csm_driver stream o fuel start =
      assert (flt (positive 0) o.alpha && flt o.alpha (of_int 1))
      >> assert (flt (positive 0) o.eps && fle o.eps (of_int 1))
      >> (do
        half ← div o.eps (of_int 2)
        log_eps ← log_down libm half
        ended ← driver_loop stream o log_eps fuel driver_start start
        result ← estimate o ended.0
        ok (result, ended.0.lines, ended.1))
