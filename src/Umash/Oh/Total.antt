-- ===== src/Umash/Oh/Total.antt =====
-- oh_compress on the blocks of an input: every block is compressed to a 128-bit value.
use umash.Prelude.{
  ℕ, ◌+◌, ◌-◌, ◌*◌, ◌≤◌, ◌<◌, ◌≡◌, refl, ap, ◌∙◌, Bool, true, false, List, [], ◌∷◌, ◌++◌, map,
  length, All, arith,
}
use umash.Bits.{bit_xor-lt}
use umash.Python.{ok, IsBytes, Gen, from_list, yield}
use umash.Umash.Params.{w}
use umash.Umash.Chunks.{Bytes, Block}
use umash.Umash.Oh.{oh_compress_one_block, block_tag, oh_compress}
use umash.Umash.Oh.Shuffle.{shuffled-lt}
use umash.Umash.Oh.Mix.{words_of, pairs_of}
use umash.Umash.Oh.Mix.Bounds.{
  IsPair, mixed_values-lt, words_of-IsPair, pairs_of-IsPair, checksum-IsPair, last_pair-lt,
}
use umash.Umash.Oh.Compress.{
  xor_all, shuffle_all, shuffled_sum, oh_compress_one_block-primary,
  oh_compress_one_block-secondary,
}

-- 128-bit values.
abbrev pub AreWide : List ℕ → Type 0
AreWide = All (λ v. v < w * w)

xor_all-lt : (vs : List ℕ) → AreWide vs → xor_all vs < w * w
unfolding xor_all
xor_all-lt [] h = omega arith
xor_all-lt (v ∷ vs) h = bit_xor-lt v (xor_all vs) 128 h.0 (xor_all-lt vs h.1)

AreWide-shuffle_all : (n i : ℕ) (vs : List ℕ) → AreWide vs → AreWide (shuffle_all n i vs)
unfolding shuffle_all
AreWide-shuffle_all n i [] h = tt
AreWide-shuffle_all n i (v ∷ vs) h =
    (shuffled-lt v (n - (i + 1)) h.0, AreWide-shuffle_all n (i + 1) vs h.1)

shuffled_sum-lt : (vs : List ℕ) (t : ℕ) → AreWide vs → t < w * w → shuffled_sum vs t < w * w
unfolding shuffled_sum
shuffled_sum-lt vs t h small =
    bit_xor-lt t _ 128 small (xor_all-lt _ (AreWide-shuffle_all (length vs) 0 vs h))

-- A list of at least two words, with its last two apart.
pub record EndsInPair (key : List ℕ) : Type 0 where
  pub front : List ℕ
  pub ta : ℕ
  pub tb : ℕ
  pub split : key ≡ front ++ ta ∷ tb ∷ []
  pub tb_word : tb < w

EndsInPair-cons : (u : ℕ) (key : List ℕ) → EndsInPair key → EndsInPair (u ∷ key)
EndsInPair-cons u key e = record {
  front = u ∷ e.front;
  ta = e.ta;
  tb = e.tb;
  split = ap (λ k. u ∷ k) e.split;
  tb_word = e.tb_word;
}

pub ends_in_pair : (key : List ℕ) → 2 ≤ length key → All (λ u. u < w) key → EndsInPair key
ends_in_pair [] long words = absurd (omega arith)
ends_in_pair (u ∷ []) long words = absurd (omega arith)
ends_in_pair (u ∷ v ∷ []) long words = record {
  front = [];
  ta = u;
  tb = v;
  split = refl;
  tb_word = words.1.0;
}
ends_in_pair (u ∷ v ∷ t ∷ key) long words =
    EndsInPair-cons u (v ∷ t ∷ key) (ends_in_pair (v ∷ t ∷ key) (omega arith) words.1)

-- A block of at most 16 chunks of 16 bytes.
pub record IsBlock (block : List Bytes) : Type 0 where
  pub room : length block ≤ 16
  pub sized : All (λ c. length c ≡ 16) block
  pub bytes : All IsBytes block

All-IsPair-words :
    (block : List Bytes)
    → All (λ c. length c ≡ 16) block
    → All IsBytes block
    → All IsPair (map words_of block)
All-IsPair-words [] sized bytes = tt
All-IsPair-words (c ∷ block) sized bytes =
    (words_of-IsPair c sized.0 bytes.0, All-IsPair-words block sized.1 bytes.1)

-- What the compressor needs of its key: two words for each chunk of a full block.
pub record IsOhKey (key : List ℕ) : Type 0 where
  pub long : 32 ≤ length key
  pub words : All (λ u. u < w) key

pub oh_compress_one_block_total :
    (key : List ℕ) (tag : ℕ) (block : List Bytes) (secondary : Bool)
    → IsOhKey key
    → IsBlock block
    → (v : ℕ) × (oh_compress_one_block key block tag secondary ≡ ok v) × (v < w * w)
oh_compress_one_block_total key tag block false k b = (
  _,
  oh_compress_one_block-primary key tag block (omega (arith, k.long, b.room)) b.sized,
  xor_all-lt _ (
      mixed_values-lt (pairs_of key) tag (map words_of block) (pairs_of-IsPair key k.words)
        (All-IsPair-words block b.sized b.bytes)),
)
oh_compress_one_block_total key tag block true k b =
    let e = ends_in_pair key (omega (arith, k.long)) k.words in
    let keys = pairs_of-IsPair key k.words in
    let xs = All-IsPair-words block b.sized b.bytes in
    let sums = checksum-IsPair (pairs_of key) (map words_of block) keys xs in
    (
      _,
      oh_compress_one_block-secondary key tag block (omega (arith, k.long, b.room)) b.sized e.front
          e.ta e.tb e.split,
      shuffled_sum-lt _ _ (mixed_values-lt (pairs_of key) tag (map words_of block) keys xs)
          (last_pair-lt e.ta e.tb _ e.tb_word sums),
    )

-- The values that oh_compress yields.
pub record IsCompressed (bs : List Block) (vs : List ℕ) : Type 0 where
  pub count : length vs ≡ length bs
  pub wide : AreWide vs

oh_compress-cons :
    (key : List ℕ) (seed : ℕ) (secondary : Bool) (b : Block) (rest : Gen Block) (v : ℕ)
    → oh_compress_one_block key b.chunks (block_tag seed b.size) secondary ≡ ok v
    → oh_compress key seed (yield b rest) secondary ≡ yield v (oh_compress key seed rest secondary)
unfolding oh_compress
oh_compress-cons key seed secondary b rest v e = rw e refl

-- oh_compress yields one 128-bit value for each block and never fails, for the primary and the secondary compressor,
-- when the key has at least 32 words and the blocks at most 16 chunks of 16 bytes.
pub oh_compress_total :
    (key : List ℕ) (seed : ℕ) (bs : List Block) (secondary : Bool)
    → IsOhKey key
    → All (λ b. IsBlock b.chunks) bs
    → (vs : List ℕ) × (oh_compress key seed (from_list bs) secondary ≡ from_list vs)
      × IsCompressed bs vs
oh_compress_total key seed [] secondary k h =
    ([], unfold oh_compress in refl, record { count = refl; wide = tt })
oh_compress_total key seed (b ∷ bs) secondary k h =
    let (v, compressed, small) =
      oh_compress_one_block_total key (block_tag seed b.size) b.chunks secondary k h.0 in
    let (vs, rest, all) = oh_compress_total key seed bs secondary k h.1 in
    (
      v ∷ vs,
      oh_compress-cons key seed secondary b (from_list bs) v compressed ∙ ap (yield v) rest,
      record { count = omega (arith, all.count); wide = (small, all.wide) },
    )
