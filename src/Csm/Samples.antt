-- ===== src/Csm/Samples.antt =====
-- What the runs of t/csm.py share: a C library that knows the functions where they are called, and
-- options.
use umash.Prelude.{ℕ, ◌==◌, false, none, some, if◌then◌else◌}
use umash.Python.{Result, ok, raise, Error}
use umash.Python.Float.{Float, positive, of_int, of_ratio}
use umash.Csm.Ulps.{Libm}
use umash.Csm.Ulps.Bits.{negated}
use umash.Csm.Driver.{Options}

abbrev pub half : Float
half = of_ratio 1 2

-- math.log at 1, 2, 3 and 0.5, and math.log1p at -0.5, as the C library rounds them.
abbrev known_log : ℕ → Result Float
known_log m =
    if m == 4607182418800017408
    then ok (positive 0)
    else if m == 4611686018427387904
    then ok (positive 4604418534313441775)
    else if m == 4613937818241073152
    then ok (positive 4607626529066517259)
    else if m == 4602678819172646912
    then ok (negated 4604418534313441775)
    else raise Error.value_error

abbrev pub libm : Libm
libm = record {
  log = λ x. known_log x.magnitude;
  log1p = λ x. ok (negated 4604418534313441775);
  exp = λ x. ok (of_int 1);
}

abbrev pub options : Options
options = record {
  alpha = half;
  eps = half;
  max_count = some 2;
  min_count = none;
  bound_eps = none;
  has_file = false;
}
