-- ===== src/Umash/Oh/Tests.antt =====
-- Runs of the OH compressor.
use umash.Prelude.{ℕ, ◌*◌, ◌%◌, bit_xor, ◌≡◌, refl, true, false, List, [], ◌∷◌, map, arith}
use umash.Python.{ok, raise, value_error, index_error, index, from_list}
use umash.Umash.Params.{w}
use umash.Umash.Chunks.{Bytes, Block}
use umash.Umash.Samples.{sample_words, sample_words-IsOhKey, bytes_from, bytes_from-IsBytes}
use umash.Umash.Oh.{
  parallel_shift, shuffle, mix_loop, oh_mix_one_block, oh_compress_one_block, block_tag,
  oh_compress,
}
use umash.Umash.Oh.Mix.{words_of, pairs_of, mixed_values, checksum, last_pair}
use umash.Umash.Oh.Compress.{
  xor_all, shuffled_sum, oh_compress_one_block-primary, oh_compress_one_block-secondary,
}
use umash.Umash.Oh.Total.{IsBlock, IsCompressed, oh_compress_total}
use umash.Umash.Oh.Tag.{oh_compress_one_block-size}
use umash.Umash.Oh.Universal.{Placed}

shuffle_first_of_three : shuffle 5 1 3 ≡ ok (bit_xor 20 10)
unfolding shuffle parallel_shift
shuffle_first_of_three = refl

shuffle_past_the_end : shuffle 5 4 3 ≡ raise value_error
unfolding shuffle
shuffle_past_the_end = refl

abbrev sample_block : List Bytes
sample_block = bytes_from 16 1 ∷ bytes_from 16 17 ∷ []

oh_mix_without_key : oh_mix_one_block (1 ∷ []) sample_block 0 false ≡ raise index_error
unfolding oh_mix_one_block mix_loop index
oh_mix_without_key = refl

sample_block-IsBlock : IsBlock sample_block
sample_block-IsBlock = record {
  room = omega arith;
  sized = (refl, (refl, tt));
  bytes = (bytes_from-IsBytes 16 1 (omega arith), (bytes_from-IsBytes 16 17 (omega arith), tt));
}

oh_compress_one_block-primary_example :
    oh_compress_one_block sample_words sample_block (7 * w) false
    ≡ ok (xor_all (mixed_values (pairs_of sample_words) (7 * w) (map words_of sample_block)))
oh_compress_one_block-primary_example =
    oh_compress_one_block-primary sample_words (7 * w) sample_block (omega arith)
      sample_block-IsBlock.sized

oh_compress_one_block-secondary_example :
    oh_compress_one_block (1 ∷ 2 ∷ 3 ∷ 4 ∷ 5 ∷ 6 ∷ []) sample_block (7 * w) true
    ≡ ok (
        shuffled_sum
          (mixed_values (pairs_of (1 ∷ 2 ∷ 3 ∷ 4 ∷ 5 ∷ 6 ∷ [])) (7 * w) (map words_of sample_block))
          (last_pair 5 6
            (checksum (pairs_of (1 ∷ 2 ∷ 3 ∷ 4 ∷ 5 ∷ 6 ∷ [])) (map words_of sample_block))))
oh_compress_one_block-secondary_example =
    oh_compress_one_block-secondary (1 ∷ 2 ∷ 3 ∷ 4 ∷ 5 ∷ 6 ∷ []) (7 * w) sample_block (omega arith)
      sample_block-IsBlock.sized (1 ∷ 2 ∷ 3 ∷ 4 ∷ []) 5 6 refl

abbrev sample_blocks : List Block
sample_blocks = record { chunks = sample_block; size = 30 } ∷ []

oh_compress_total_example :
    (vs : List ℕ) × (oh_compress sample_words 7 (from_list sample_blocks) true ≡ from_list vs)
    × IsCompressed sample_blocks vs
oh_compress_total_example =
    oh_compress_total sample_words 7 sample_blocks true sample_words-IsOhKey
      (sample_block-IsBlock, tt)

oh_compress_one_block-size_example : 30 % 256 ≡ 286 % 256
unfolding block_tag
oh_compress_one_block-size_example =
    oh_compress_one_block-size sample_words 7 sample_block 30 286 true sample_words-IsOhKey
      sample_block-IsBlock (omega arith) (omega arith) refl

-- Blocks of two chunks that differ in both words of the first.
abbrev one_place : Placed
one_place = record { before = []; chunk = bytes_from 16 1; next = bytes_from 16 17; after = [] }

abbrev other_place : Placed
other_place = record { before = []; chunk = bytes_from 16 2; next = bytes_from 16 17; after = [] }
