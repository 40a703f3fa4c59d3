-- ===== src/Umash/Poly/Tests.antt =====
-- Runs of poly_reduce.
use umash.Prelude.{ℕ, ◌+◌, ◌*◌, ◌≡◌, refl, [], ◌∷◌}
use umash.Python.{ok, raise, index_error, fail, yield, from_list}
use umash.Umash.Params.{w}
use umash.Umash.Poly.{poly_update, update_loop, poly_reduce}
use umash.Umash.Poly.Horner.{IsHashOf, poly_reduce-polynomial}

-- 10 * (10 * 3 + 4) for the halves 3 and 4 of one value.
poly_reduce_of_one : poly_reduce 10 16 (from_list ((4 * w + 3) ∷ [])) 0 ≡ ok 340
unfolding poly_reduce update_loop poly_update
poly_reduce_of_one = refl

-- An exception of the generator ends the reduction.
poly_reduce_of_failure : poly_reduce 10 16 (yield 3 (fail index_error)) 0 ≡ raise index_error
unfolding poly_reduce update_loop poly_update
poly_reduce_of_failure = refl

poly_reduce-polynomial_example :
    (h : ℕ) × (poly_reduce 12345678901 64 (from_list ((4 * w + 3) ∷ (w * w + 5) ∷ [])) 0 ≡ ok h)
    × IsHashOf 12345678901 0 ((4 * w + 3) ∷ (w * w + 5) ∷ []) h
poly_reduce-polynomial_example =
    poly_reduce-polynomial 12345678901 64 0 ((4 * w + 3) ∷ (w * w + 5) ∷ [])
