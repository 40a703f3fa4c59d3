-- ===== src/Python/Float.antt =====
-- Python's floats: IEEE 754 doubles, with the exact arithmetic written out.
mod Round
pub mod Units
pub mod Rounded
pub mod Nearest
pub mod Ordered
pub mod Multiples
pub mod Dekker
unfoldable pub use Round.*
use umash.Prelude.{
  ℕ, zero, suc, ◌+◌, ◌-◌, ◌*◌, ◌^◌, ◌==◌, ltb, leb, Bool, true, false, not, ◌&&◌, ◌||◌,
  if◌then◌else◌,
}
use umash.Python.Exceptions.{Result, ok, raise, Error}
use umash.Python.Integer.{ℤ, pos, negsuc, pos_part, neg_part, ◌+ℤ◌, with_sign, ltb_ℤ, leb_ℤ}

-- The sign bit, and the 63 bits under it.
pub record Float : Type 0 where
  pub negative : Bool
  pub magnitude : ℕ

abbrev pub positive : ℕ → Float
positive m = record { negative = false; magnitude = m }

abbrev pub nan : Float
nan = positive (infinite + 2 ^ 51)

abbrev pub is_nan : Float → Bool
is_nan x = ltb infinite x.magnitude

abbrev pub is_infinite : Float → Bool
is_infinite x = x.magnitude == infinite

-- The exact value of a float that is no NaN, in units of 2 ** -1074; an infinity counts as 2 ** 1024.
abbrev pub value : Float → ℤ
value x = with_sign x.negative (units x.magnitude)

-- The signed bits, which are ordered as the values are, with the two zeros equal.
abbrev pub order_key : Float → ℤ
order_key x = with_sign x.negative x.magnitude

unfoldable pub flt : Float → Float → Bool
flt x y = not (is_nan x) && not (is_nan y) && ltb_ℤ (order_key x) (order_key y)

unfoldable pub fle : Float → Float → Bool
fle x y = not (is_nan x) && not (is_nan y) && leb_ℤ (order_key x) (order_key y)

unfoldable pub feq : Float → Float → Bool
feq x y = fle x y && fle y x

-- The float nearest to an exact value, with the sign that a zero gets.
unfoldable pub of_value : Bool → ℤ → Float
of_value negative_zero (pos zero) = record { negative = negative_zero; magnitude = 0 }
of_value negative_zero (pos (suc n)) = positive (round_ratio (suc n) 1)
of_value negative_zero (negsuc n) = record { negative = true; magnitude = round_ratio (suc n) 1 }

-- The value of a literal num / den, and of an integer.
unfoldable pub of_ratio : ℕ → ℕ → Float
of_ratio num den = positive (round_ratio (num * 2 ^ 1074) den)

unfoldable pub of_int : ℕ → Float
of_int n = of_ratio n 1

unfoldable pub neg : Float → Float
neg x = record { negative = not x.negative; magnitude = x.magnitude }

unfoldable pub abs : Float → Float
abs x = positive x.magnitude

-- A sum of two finite floats; a sum that is zero is -0.0 only if both terms are.
unfoldable pub add_finite : Float → Float → Float
add_finite x y = of_value (x.negative && y.negative) (value x +ℤ value y)

abbrev pub same_sign : Bool → Bool → Bool
same_sign true b = b
same_sign false b = not b

unfoldable pub add : Float → Float → Float
add x y =
    if is_nan x || is_nan y
    then nan
    else if is_infinite x
    then (if is_infinite y && not (same_sign x.negative y.negative) then nan else x)
    else if is_infinite y
    then y
    else add_finite x y

unfoldable pub sub : Float → Float → Float
sub x y = add x (neg y)

unfoldable pub mul : Float → Float → Float
mul x y =
    let negative = not (same_sign x.negative y.negative) in
    if is_nan x || is_nan y
    then nan
    else if is_infinite x || is_infinite y
    then (if x.magnitude == 0 || y.magnitude == 0
        then nan
        else record { negative = negative; magnitude = infinite })
    else record {
      negative = negative;
      magnitude = round_ratio (units x.magnitude * units y.magnitude) (2 ^ 1074);
    }

-- Python's division raises where the divisor is a zero.
unfoldable pub div : Float → Float → Result Float
div x y =
    let negative = not (same_sign x.negative y.negative) in
    if y.magnitude == 0
    then raise Error.zero_division_error
    else if is_nan x || is_nan y
    then ok nan
    else if is_infinite x
    then (if is_infinite y
        then ok nan
        else ok (record { negative = negative; magnitude = infinite }))
    else if is_infinite y
    then ok (record { negative = negative; magnitude = 0 })
    else ok (record {
      negative = negative;
      magnitude = round_ratio (units x.magnitude * 2 ^ 1074) (units y.magnitude);
    })

-- min(x, y) and max(x, y) of Python: the first, unless the second is less, or greater.
unfoldable pub min_float : Float → Float → Float
min_float x y = if flt y x then y else x

unfoldable pub max_float : Float → Float → Float
max_float x y = if flt x y then y else x
