-- ===== src/Umash/Chunks/Tests.antt =====
-- Runs of chunk_bytes and blockify_chunks.
use umash.Prelude.{◌≡◌, refl, List, [], ◌∷◌, arith}
use umash.Python.{stop, fail, yield, assertion_error, from_list}
use umash.Umash.Samples.{bytes_from}
use umash.Umash.Chunks.{
  Chunk, Block, chunk_at, chunk_loop, chunk_bytes, blockify_loop, blockify_chunks,
}
use umash.Umash.Chunks.Cut.{IsCutOf, reassemble, chunk_bytes-cut}
use umash.Umash.Chunks.Grouping.{IsGroupingOf, blockify-chunk_bytes}

-- 9 bytes: the first and the last 8.
chunk_bytes_of_nine :
    chunk_bytes (bytes_from 9 1)
    ≡ yield
        (record {
          bytes = 1 ∷ 2 ∷ 3 ∷ 4 ∷ 5 ∷ 6 ∷ 7 ∷ 8 ∷ 2 ∷ 3 ∷ 4 ∷ 5 ∷ 6 ∷ 7 ∷ 8 ∷ 9 ∷ [];
          size = 9;
        })
        stop
unfolding chunk_bytes
chunk_bytes_of_nine = refl

-- 20 bytes: the second chunk is the last 16 bytes and stands for 4.
chunk_bytes_of_twenty :
    chunk_bytes (bytes_from 20 1)
    ≡ yield
        (record { bytes = bytes_from 16 1; size = 16 })
        (yield (record { bytes = bytes_from 16 5; size = 4 }) stop)
unfolding chunk_bytes chunk_loop chunk_at
chunk_bytes_of_twenty = refl

blockify_chunks_of_nothing : blockify_chunks stop ≡ fail assertion_error
unfolding blockify_chunks blockify_loop
blockify_chunks_of_nothing = refl

chunk_bytes-cut_example :
    (cs : List Chunk) × (chunk_bytes (bytes_from 20 1) ≡ from_list cs)
    × IsCutOf (bytes_from 20 1) cs
    × (reassemble cs ≡ bytes_from 20 1)
chunk_bytes-cut_example = chunk_bytes-cut (bytes_from 20 1) (omega arith)

blockify-chunk_bytes_example :
    (bs : List Block) × (blockify_chunks (chunk_bytes (bytes_from 100 1)) ≡ from_list bs)
    × IsGroupingOf (bytes_from 100 1) bs
blockify-chunk_bytes_example = blockify-chunk_bytes (bytes_from 100 1) (omega arith)
