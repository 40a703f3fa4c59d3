-- ===== src/Umash/Short/Tests.antt =====
-- Runs of vec_to_u64 and umash_short.
use umash.Prelude.{ℕ, ◌+◌, ◌*◌, ◌^◌, ◌<◌, ◌≡◌, ◌↔◌, refl, List, [], ◌∷◌, arith}
use umash.Python.{ok, raise, assertion_error, index_error, index, unpack_u16}
use umash.Umash.Params.{w}
use umash.Umash.Samples.{sample_words, bytes_from, bytes_from-IsBytes}
use umash.Umash.Short.{read_short_halves, combine_halves, vec_to_u64, umash_short}
use umash.Umash.Short.Laws.{umash_short-inj, umash_short-uniform}

-- hi = 0x0302 and lo = 0x01.
vec_to_u64_of_three : vec_to_u64 (1 ∷ 2 ∷ 3 ∷ []) ≡ ok (0x0302 * 2 ^ 32 + 0x0303)
unfolding vec_to_u64 read_short_halves combine_halves index unpack_u16
vec_to_u64_of_three = refl

vec_to_u64_of_nine : vec_to_u64 (bytes_from 9 1) ≡ raise assertion_error
unfolding vec_to_u64
vec_to_u64_of_nine = refl

umash_short_without_key : umash_short (1 ∷ []) 0 (1 ∷ 2 ∷ 3 ∷ []) ≡ raise index_error
unfolding umash_short index
umash_short_without_key = refl

umash_short-inj_example : bytes_from 3 1 ≡ 1 ∷ 2 ∷ 3 ∷ []
umash_short-inj_example =
    umash_short-inj sample_words 7 (bytes_from 3 1) (1 ∷ 2 ∷ 3 ∷ []) (omega arith) (omega arith)
      refl (bytes_from-IsBytes 3 1 (omega arith)) (bytes_from-IsBytes 3 1 (omega arith)) refl

umash_short-uniform_example :
    (word : ℕ) × (word < w)
    × ((key : List ℕ) (other : ℕ)
        → index key 3 ≡ ok other
        → other < w
        → (umash_short key 7 (1 ∷ 2 ∷ 3 ∷ []) ≡ ok 99) ↔ (other ≡ word))
umash_short-uniform_example =
    umash_short-uniform 7 (1 ∷ 2 ∷ 3 ∷ []) 99 (omega arith) (bytes_from-IsBytes 3 1 (omega arith))
      (omega arith)
