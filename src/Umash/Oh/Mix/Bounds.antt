-- ===== src/Umash/Oh/Mix/Bounds.antt =====
-- oh_mix_one_block: how many values it mixes, and that they fit 128 bits.
use umash.Prelude.{
  ℕ, ◌*◌, ◌/◌, ◌≤◌, ◌<◌, bit_xor, ◌≡◌, refl, List, [], ◌∷◌, length, take, drop, length-take,
  length-drop, All, All-take, All-drop, arith,
}
use umash.Bits.{bit_xor-lt}
use umash.Python.{IsBytes, little_endian-lt}
use umash.Umash.Params.{w}
use umash.Umash.Chunks.{Bytes}
use umash.Umash.Gfmul.Linear.{ph-lt}
use umash.Umash.Gfmul.Linear.{gfmul-lt}
use umash.Umash.Oh.Mix.{Pair, words_of, pairs_of, mixed_values, checksum, last_pair}
use umash.Umash.Oh.{enh}

-- The mixed values of 64-bit words fit 128 bits.
abbrev pub IsPair : Pair → Type 0
IsPair p = (p.a < w) × (p.b < w)

pub enh-lt : (ka kb tag xa xb : ℕ) → enh ka kb tag xa xb < w * w
unfolding enh
enh-lt ka kb tag xa xb = bit_xor-lt _ _ 128 (omega arith) (omega arith)

pub mixed_values-lt :
    (ks : List Pair) (tag : ℕ) (xs : List Pair)
    → All IsPair ks
    → All IsPair xs
    → All (λ v. v < w * w) (mixed_values ks tag xs)
unfolding mixed_values
mixed_values-lt [] tag xs hk hx = tt
mixed_values-lt (k ∷ ks) tag [] hk hx = tt
mixed_values-lt (k ∷ ks) tag (x ∷ []) hk hx = (enh-lt k.a k.b tag x.a x.b, tt)
mixed_values-lt (k ∷ ks) tag (x ∷ y ∷ xs) hk hx =
    (ph-lt k.a k.b x.a x.b hk.0.1 hx.0.1, mixed_values-lt ks tag (y ∷ xs) hk.1 hx.1)

pub length-mixed_values :
    (ks : List Pair) (tag : ℕ) (xs : List Pair)
    → length xs ≤ length ks
    → length (mixed_values ks tag xs) ≡ length xs
unfolding mixed_values
length-mixed_values [] tag [] h = refl
length-mixed_values [] tag (x ∷ xs) h = absurd (omega arith)
length-mixed_values (k ∷ ks) tag [] h = refl
length-mixed_values (k ∷ ks) tag (x ∷ []) h = refl
length-mixed_values (k ∷ ks) tag (x ∷ y ∷ xs) h =
    omega (arith, length-mixed_values ks tag (y ∷ xs) (omega arith))

pub words_of-IsPair : (c : Bytes) → length c ≡ 16 → IsBytes c → IsPair (words_of c)
words_of-IsPair c sized bytes =
    let low = little_endian-lt (take 8 c) (All-take (λ b. b < 256) 8 c bytes) in
    let high = little_endian-lt (drop 8 c) (All-drop (λ b. b < 256) 8 c bytes) in
    let low_size : length (take 8 c) ≡ 8 = omega (arith, length-take 8 c) in
    let high_size : length (drop 8 c) ≡ 8 = omega (arith, length-drop 8 c) in
    (rw low_size at low, rw high_size at high)

pub pairs_of-IsPair : (key : List ℕ) → All (λ u. u < w) key → All IsPair (pairs_of key)
unfolding pairs_of
pairs_of-IsPair [] h = tt
pairs_of-IsPair (a ∷ []) h = tt
pairs_of-IsPair (a ∷ b ∷ key) h = ((h.0, h.1.0), pairs_of-IsPair key h.1.1)

pub length-pairs_of : (key : List ℕ) → length (pairs_of key) ≡ length key / 2
unfolding pairs_of
length-pairs_of [] = refl
length-pairs_of (a ∷ []) = refl
length-pairs_of (a ∷ b ∷ key) = omega (arith, length-pairs_of key)

pub checksum-IsPair : (ks xs : List Pair) → All IsPair ks → All IsPair xs → IsPair (checksum ks xs)
unfolding checksum
checksum-IsPair [] xs hk hx = (omega arith, omega arith)
checksum-IsPair (k ∷ ks) [] hk hx = (omega arith, omega arith)
checksum-IsPair (k ∷ ks) (x ∷ xs) hk hx =
    let rest = checksum-IsPair ks xs hk.1 hx.1 in
    (
      bit_xor-lt _ _ 64 (bit_xor-lt k.a x.a 64 hk.0.0 hx.0.0) rest.0,
      bit_xor-lt _ _ 64 (bit_xor-lt k.b x.b 64 hk.0.1 hx.0.1) rest.1,
    )

pub last_pair-lt : (ka kb : ℕ) (sums : Pair) → kb < w → IsPair sums → last_pair ka kb sums < w * w
last_pair-lt ka kb sums hk hs =
    omega
      (arith, gfmul-lt (bit_xor sums.a ka) (bit_xor sums.b kb) (bit_xor-lt sums.b kb 64 hs.1 hk))
