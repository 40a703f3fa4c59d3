-- ===== src/Umash/Gfmul/Tests.antt =====
-- Runs of gfmul and of PH.
use umash.Prelude.{◌%◌, ◌≡◌, refl}
use umash.Bits.{bit}
use umash.Umash.Gfmul.{gfmul_rounds, gfmul}
use umash.Umash.Gfmul.Field.{convolution, bit-gfmul}

-- (x^2 + 1) * (x + 1) = x^3 + x^2 + x + 1
gfmul_of_five : gfmul 5 3 ≡ 15
unfolding gfmul gfmul_rounds
gfmul_of_five = refl

bit-gfmul_example : bit (gfmul 5 3) 2 ≡ convolution 64 5 3 2 % 2
bit-gfmul_example = bit-gfmul 5 3 2

five_times_zero : gfmul 5 0 ≡ 0
unfolding gfmul gfmul_rounds
five_times_zero = refl
