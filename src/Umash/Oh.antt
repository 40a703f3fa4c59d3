-- ===== src/Umash/Oh.antt =====
-- oh_mix_one_block, shuffle, oh_compress_one_block and oh_compress: the OH block compressor.
pub mod Shuffle
pub mod Mix
pub mod Compress
pub mod Total
pub mod Tag
pub mod Universal
mod Tests
use mathlib.Core.List.{foldl}
use umash.Prelude.{
  ℕ, zero, suc, ◌+◌, ◌-◌, ◌*◌, ◌/◌, ◌%◌, ◌^◌, bit_xor, Bool, true, false, not, List, [], ◌∷◌, ◌++◌,
  length, take, ltb, ◌==◌, if◌then◌else◌,
}
use umash.Python.{
  Result, ok, raise, value_error, ◌>>=◌, ◌>>◌, Gen, stop, fail, yield, or_fail, index, index_back,
  unpack_u64_pair,
}
use umash.Umash.Params.{w, chunk_size, block_size}
use umash.Umash.Gfmul.{gfmul, ph}
use umash.Umash.Chunks.{Bytes, Block}

-- The ENH mixer of one chunk (xa, xb) with a tag, under the key words (ka, kb).
pub enh : ℕ → ℕ → ℕ → ℕ → ℕ → ℕ
enh ka kb tag xa xb =
    let product = (xa + ka) % w * ((xb + kb) % w) in
    let tagged = (product + tag) % (w * w) in bit_xor tagged (tagged % w * w)

-- The variables of the loop over the chunks.
pub record Mixing : Type 0 where
  pub mixed : List ℕ
  pub lrc_a : ℕ
  pub lrc_b : ℕ

-- The loop from chunk `i` of `count` on.
pub mix_loop : List ℕ → ℕ → ℕ → ℕ → List Bytes → Mixing → Result Mixing
mix_loop key tag count i [] s = ok s
mix_loop key tag count i (chunk ∷ rest) s = do
  ka ← index key (2 * i)
  kb ← index key (2 * i + 1)
  x ← unpack_u64_pair chunk
  let value = if ltb i (count - 1) then ph ka kb x.0 x.1 else enh ka kb tag x.0 x.1
  mix_loop key tag count (i + 1) rest (record {
    mixed = s.mixed ++ value ∷ [];
    lrc_a = bit_xor s.lrc_a (bit_xor ka x.0);
    lrc_b = bit_xor s.lrc_b (bit_xor kb x.1);
  })

pub oh_mix_one_block : List ℕ → List Bytes → ℕ → Bool → Result (List ℕ)
oh_mix_one_block key block tag secondary = do
  s ← mix_loop key tag (length block) 0 block (record { mixed = []; lrc_a = 0; lrc_b = 0 })
  if secondary
      then (do
        ka ← index_back key 2
        kb ← index_back key 1
        ok (s.mixed ++ gfmul (bit_xor s.lrc_a ka) (bit_xor s.lrc_b kb) ∷ []))
      else ok s.mixed

pub parallel_shift : ℕ → ℕ → ℕ
parallel_shift x s = let lo = x % w * 2 ^ s % w in let hi = x / w * 2 ^ s % w in lo + w * hi

-- A negative shift count, i > n, is a ValueError.
pub shuffle : ℕ → ℕ → ℕ → Result ℕ
shuffle x i n =
    if ltb n i
    then raise value_error
    else let shift = n - i in
      if shift == 0
      then ok x
      else if shift == 1
      then ok (parallel_shift x 1)
      else ok (bit_xor (parallel_shift x shift) (parallel_shift x 1))

-- The loop over enumerate(mixed[:-1]) from index `i` on.
pub shuffle_loop : ℕ → ℕ → List ℕ → ℕ → Result ℕ
shuffle_loop n i [] acc = ok acc
shuffle_loop n i (m ∷ ms) acc = do
  s ← shuffle m (i + 1) n
  shuffle_loop n (i + 1) ms (bit_xor acc s)

pub oh_compress_one_block : List ℕ → List Bytes → ℕ → Bool → Result ℕ
oh_compress_one_block key block tag secondary = do
  mixed ← oh_mix_one_block key block tag secondary
  if secondary
      then (do
        acc ← index_back mixed 1
        shuffle_loop (length mixed - 1) 0 (take (length mixed - 1) mixed) acc)
      else ok (foldl bit_xor 0 mixed)

-- The tag of a block of `size` bytes.
pub block_tag : ℕ → ℕ → ℕ
block_tag seed size = bit_xor seed (size % (chunk_size * block_size)) * w

pub oh_compress : List ℕ → ℕ → Gen Block → Bool → Gen ℕ
oh_compress key seed stop secondary = stop
oh_compress key seed (fail e) secondary = fail e
oh_compress key seed (yield b rest) secondary =
    or_fail (oh_compress_one_block key b.chunks (block_tag seed b.size) secondary)
      λ v. yield v (oh_compress key seed rest secondary)
