-- ===== src/Umash/Chunks.antt =====
-- chunk_bytes and blockify_chunks: the input as 16-byte chunks, and those as blocks.
pub mod Stream
pub mod Cut
pub mod Blocks
pub mod Grouping
mod Tests
use umash.Prelude.{
  ℕ, zero, suc, ◌+◌, ◌-◌, ◌*◌, ◌/◌, Bool, true, false, not, List, [], ◌∷◌, ◌++◌, length, drop, ltb,
  leb, ◌==◌, if◌then◌else◌,
}
use umash.Python.{
  Result, ok, ◌>>=◌, ◌>>◌, assert, Gen, stop, fail, yield, or_fail, slice, last_items,
}
use umash.Umash.Params.{chunk_size, block_size}

abbrev pub Bytes : Type 0
Bytes = List ℕ

-- A chunk with the count of input bytes that it stands for.
pub record Chunk : Type 0 where
  pub bytes : Bytes
  pub size : ℕ

pub record Block : Type 0 where
  pub chunks : List Bytes
  pub size : ℕ

-- What one round of the loop over range(0, len(buf), CHUNK_SIZE) yields.
pub chunk_at : Bytes → ℕ → Chunk
chunk_at buf i =
    if leb (i + chunk_size) (length buf)
    then record { bytes = slice i (i + chunk_size) buf; size = chunk_size }
    else record { bytes = drop (length buf - chunk_size) buf; size = length buf - i }

-- The loop from index `i`, with the count of rounds left.
pub chunk_loop : ℕ → ℕ → Bytes → Gen Chunk
chunk_loop zero i buf = stop
chunk_loop (suc rounds) i buf = yield (chunk_at buf i) (chunk_loop rounds (i + chunk_size) buf)

-- The count of elements of range(0, n, CHUNK_SIZE).
abbrev pub rounds_for : ℕ → ℕ
rounds_for n = (n + (chunk_size - 1)) / chunk_size

pub chunk_bytes : Bytes → Gen Chunk
chunk_bytes buf = or_fail (assert (leb (chunk_size / 2) (length buf))) λ _.
    if ltb (length buf) chunk_size
    then yield
        (record {
          bytes = slice 0 (chunk_size / 2) buf ++ last_items (chunk_size / 2) buf;
          size = length buf;
        })
        stop
    else chunk_loop (rounds_for (length buf)) 0 buf

abbrev is_nonempty : List Bytes → Bool
is_nonempty [] = false
is_nonempty (x ∷ xs) = true

-- The loop with `acc` and `size` so far.
pub blockify_loop : List Bytes → ℕ → Gen Chunk → Gen Block
blockify_loop acc size stop =
    or_fail (assert (is_nonempty acc)) (λ _. yield (record { chunks = acc; size = size }) stop)
blockify_loop acc size (fail e) = fail e
blockify_loop acc size (yield c rest) =
    or_fail (do assert (length c.bytes == chunk_size); assert (leb (length acc) block_size))
      λ _. elim (length acc == block_size) [
        | true ↦ or_fail (assert (size == chunk_size * block_size)) λ _.
            yield (record { chunks = acc; size = size })
              (blockify_loop ([] ++ c.bytes ∷ []) (0 + c.size) rest)
        | false ↦ blockify_loop (acc ++ c.bytes ∷ []) (size + c.size) rest
      ]

pub blockify_chunks : Gen Chunk → Gen Block
blockify_chunks chunks = blockify_loop [] 0 chunks
