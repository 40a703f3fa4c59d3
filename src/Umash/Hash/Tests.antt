-- ===== src/Umash/Hash/Tests.antt =====
-- Runs of umash and umash_long on concrete inputs.
use umash.Prelude.{ℕ, ◌<◌, ◌≡◌, refl, true, false, [], ◌∷◌, arith}
use umash.Python.{ok, raise, assertion_error}
use umash.Umash.Params.{w}
use umash.Umash.Samples.{sample_key, sample_key-IsKey, bytes_from, bytes_from-IsBytes}
use umash.Umash.Hash.{umash_long, umash_hash}
use umash.Umash.Hash.Long.{
  IsLongHash, IsPolynomialHash, umash_long-polynomial, umash_long-collision,
}
use umash.Umash.Hash.Total.{umash_hash_total}

umash_long_of_three : umash_long sample_key 0 (1 ∷ 2 ∷ 3 ∷ []) false ≡ raise assertion_error
unfolding umash_long
umash_long_of_three = refl

-- 40 bytes: three chunks, of which the last overlaps the second.
umash_hash_total_example :
    (h : ℕ) × (umash_hash sample_key 7 (bytes_from 40 1) true ≡ ok h) × (h < w)
umash_hash_total_example =
    umash_hash_total sample_key 7 (bytes_from 40 1) true sample_key-IsKey
      (bytes_from-IsBytes 40 1 (omega arith))

umash_long-polynomial_example :
    (h : ℕ) × (umash_long sample_key 7 (bytes_from 40 1) true ≡ ok h)
    × IsLongHash sample_key 7 (bytes_from 40 1) true h
umash_long-polynomial_example =
    umash_long-polynomial sample_key 7 (bytes_from 40 1) true sample_key-IsKey (omega arith)
      (bytes_from-IsBytes 40 1 (omega arith))

umash_long-collision_example :
    (p : ℕ) × IsPolynomialHash sample_key 7 (bytes_from 40 1) false p
    × IsPolynomialHash sample_key 7 (bytes_from 40 1) false p
umash_long-collision_example =
    umash_long-collision sample_key 7 7 (bytes_from 40 1) (bytes_from 40 1) false sample_key-IsKey
      (omega arith) (omega arith) (bytes_from-IsBytes 40 1 (omega arith))
      (bytes_from-IsBytes 40 1 (omega arith)) refl
