-- ===== src/Exact/Samples.antt =====
-- What the runs of t/exact_test.py and its sampler share: numbers in the place of floats and of names.
use umash.Prelude.{ℕ, ◌*◌, ◌/◌, refl, ◌==◌, ==_iff, ltb, leb}
use umash.Python.{ok}
use umash.Python.Dict.Lookup.{Names}
use umash.Exact.Statistic.{Floats}

-- Hundredths.
abbrev pub hundredths : Floats
hundredths = record {
  Float = ℕ;
  feq = λ x y. x == y;
  fle = leb;
  flt = ltb;
  same_key = λ x y. x == y;
  same_key_self = λ x. (==_iff x x).1 refl;
  zero_point_five = 50;
  zero_point_99 = 99;
  ratio = λ s n. 100 * s / n;
  divide = λ x y. x / y;
  multiply = λ x y. x * y;
  of_int = λ n. n;
  one_point_one = 1;
  log = λ x. ok x;
}

abbrev pub numbers : Names
numbers = record { Name = ℕ; same = λ x y. x == y; same_iff = ==_iff }
