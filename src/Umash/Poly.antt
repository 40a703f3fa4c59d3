-- ===== src/Umash/Poly.antt =====
-- poly_reduce: the polynomial hash of the compressed values.
pub mod Horner
pub mod Split
mod Tests
use umash.Prelude.{ℕ, ◌+◌, ◌-◌, ◌*◌, ◌/◌, ◌%◌, ◌^◌, ◌==◌}
use umash.Python.{Result, ok, raise, ◌>>=◌, ◌>>◌, assert, Gen, stop, fail, yield}
use umash.Umash.Params.{w, modulus}

-- update(y0, y1), from acc[0] to the new acc[0].
pub poly_update : ℕ → ℕ → ℕ → ℕ → ℕ → Result ℕ
poly_update multiplier mulsq acc y0 y1 =
    let reference = multiplier * (multiplier * (acc + y0) + y1) % modulus in
    let acc' = (mulsq * (acc + y0) + multiplier * y1) % (w - 8) in
    assert (acc' % modulus == reference) >> ok acc'

-- The loop over the compressed values.
pub update_loop : ℕ → ℕ → ℕ → Gen ℕ → Result ℕ
update_loop multiplier mulsq acc stop = ok acc
update_loop multiplier mulsq acc (fail e) = raise e
update_loop multiplier mulsq acc (yield value rest) = do
  acc' ← poly_update multiplier mulsq acc (value % w) (value / w)
  update_loop multiplier mulsq acc' rest

pub poly_reduce : ℕ → ℕ → Gen ℕ → ℕ → Result ℕ
poly_reduce multiplier input_size compressed_values initial =
    let mulsq = multiplier ^ 2 % modulus in update_loop multiplier mulsq initial compressed_values
