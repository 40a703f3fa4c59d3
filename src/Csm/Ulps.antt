-- ===== src/Csm/Ulps.antt =====
-- The float frobbing of t/csm.py: floats as ordered integers, steps by ULPs, and the one-sided
-- logarithms on top of the C library's.
pub mod Bits
pub mod Steps
use umash.Prelude.{ℕ, ◌+◌, ◌-◌, ◌^◌, ltb, Bool, true, false, if◌then◌else◌}
use umash.Python.{Result, ok, raise, ◌>>=◌, Error}
use umash.Python.Integer.{ℤ, pos, negsuc, ◌+ℤ◌, ◌-ℤ◌, mod_ℤ}
use umash.Python.Float.{Float}

-- struct.unpack("=q", struct.pack("=d", x))[0]: the 64 bits in two's complement.
unfoldable pub unpack_q : Float → ℤ
unpack_q x = if x.negative then negsuc (2 ^ 63 - 1 - x.magnitude) else pos x.magnitude

-- struct.unpack("=d", struct.pack("=q", bits))[0], which raises for what 64 bits do not hold.
unfoldable pub pack_q : ℤ → Result Float
pack_q (pos n) =
    if ltb n (2 ^ 63)
    then ok (record { negative = false; magnitude = n })
    else raise Error.struct_error
pack_q (negsuc n) =
    if ltb n (2 ^ 63)
    then ok (record { negative = true; magnitude = 2 ^ 63 - 1 - n })
    else raise Error.struct_error

unfoldable pub float_bits : Float → ℤ
float_bits x =
    let bits = unpack_q x in
    let significand = mod_ℤ bits (2 ^ 63) in
    elim bits [ pos n ↦ pos significand | negsuc n ↦ negsuc significand ]

unfoldable pub bits_float : ℤ → Result Float
bits_float (pos n) = pack_q (pos n)
bits_float (negsuc n) = let significand = mod_ℤ (negsuc n) (2 ^ 63) in pack_q (negsuc significand)

unfoldable pub next : Float → ℕ → Result Float
next x delta = bits_float (float_bits x +ℤ pos delta)

unfoldable pub prev : Float → ℕ → Result Float
prev x delta = bits_float (float_bits x -ℤ pos delta)

abbrev pub libm_error_limit : ℕ
libm_error_limit = 4

-- The functions of the C library that the code calls through `math`; each may raise a ValueError or an
-- OverflowError.
pub record Libm : Type 0 where
  pub log : Float → Result Float
  pub log1p : Float → Result Float
  pub exp : Float → Result Float

module _ (libm : Libm) where
  unfoldable pub log_up : Float → Result Float
  log_up x = libm.log x >>= λ y. next y libm_error_limit

  unfoldable pub log_down : Float → Result Float
  log_down x = libm.log x >>= λ y. prev y libm_error_limit

  unfoldable pub log1p_up : Float → Result Float
  log1p_up x = libm.log1p x >>= λ y. next y libm_error_limit

  unfoldable pub log1p_down : Float → Result Float
  log1p_down x = libm.log1p x >>= λ y. prev y libm_error_limit
