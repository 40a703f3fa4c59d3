-- ===== src/Umash/Samples.antt =====
-- Data that the tests of several components share: a key, and inputs of several lengths.
use umash.Prelude.{
  ℕ, zero, suc, ◌+◌, ◌<◌, ◌≡◌, refl, Bool, true, ◌&&◌, List, [], ◌∷◌, All, ltb, arith,
}
use umash.Python.{IsBytes}
use umash.Umash.Params.{w, UmashKey, IsKey}
use umash.Umash.Chunks.{Bytes}
use umash.Umash.Oh.Total.{IsOhKey}

all_below : ℕ → List ℕ → Bool
all_below n [] = true
all_below n (x ∷ xs) = ltb x n && all_below n xs

all_below-All : (n : ℕ) (xs : List ℕ) → all_below n xs ≡ true → All (λ x. x < n) xs
unfolding all_below
all_below-All n [] h = tt
all_below-All n (x ∷ xs) h =
    let first : x < n = ground arith in
    let rest : all_below n xs ≡ true = ground arith in (first, all_below-All n xs rest)

abbrev pub sample_words : List ℕ
sample_words =
    3 ∷ 4 ∷ 5 ∷ 6 ∷ 7 ∷ 8 ∷ 9 ∷ 10 ∷ 11 ∷ 12 ∷ 13 ∷ 14 ∷ 15 ∷ 16 ∷ 17 ∷ 18 ∷ 19 ∷ 20 ∷ 21 ∷ 22 ∷ 23
    ∷ 24 ∷ 25 ∷ 26 ∷ 27 ∷ 28 ∷ 29 ∷ 30 ∷ 31 ∷ 32 ∷ 33 ∷ 34 ∷ 35 ∷ 36 ∷ []

abbrev pub sample_key : UmashKey
sample_key = record { poly = 2; oh = sample_words }

sample_words-small : All (λ u. u < w) sample_words
unfolding all_below
sample_words-small = all_below-All w sample_words refl

pub sample_key-IsKey : IsKey sample_key
sample_key-IsKey = record {
  poly_lower = omega arith;
  poly_upper = omega arith;
  oh_length = refl;
  oh_words = sample_words-small;
}

pub sample_words-IsOhKey : IsOhKey sample_words
sample_words-IsOhKey = record { long = omega arith; words = sample_words-small }

-- `count` bytes, from `b` up.
abbrev pub bytes_from : ℕ → ℕ → Bytes
bytes_from zero b = []
bytes_from (suc count) b = b ∷ bytes_from count (b + 1)

pub bytes_from-IsBytes : (count b : ℕ) → b + count < 256 → IsBytes (bytes_from count b)
bytes_from-IsBytes zero b h = tt
bytes_from-IsBytes (suc count) b h = (omega arith, bytes_from-IsBytes count (b + 1) (omega arith))
