-- ===== src/Umash/Oh/Universal.antt =====
-- The primary compressor is almost-xor-universal in the key words of each chunk but the last.
use umash.Prelude.{ℕ, suc, ◌+◌, ◌*◌, ◌≤◌, bit_xor, ◌≡◌, false, List, ◌∷◌, ◌++◌, length, All}
use umash.Python.{Result, ok, ◌>>=◌}
use umash.Umash.Chunks.{Bytes}
use umash.Umash.Gfmul.{ph}
use umash.Umash.Oh.{oh_compress_one_block}
use umash.Umash.Oh.Mix.{Pair}

-- The `^` of all mixed values is the PH of any chunk but the last, `^` what the other chunks give.
record Around (f : Pair → ℕ) (x : Pair) : Type 0 where
  others : ℕ
  value : (k : Pair) → f k ≡ bit_xor others (ph k.a k.b x.a x.b)

-- The difference of two compressed blocks, each with its tag.
pub oh_difference : List ℕ → List Bytes → ℕ → List Bytes → ℕ → Result ℕ
oh_difference key a s b t = do
  u ← oh_compress_one_block key a s false
  v ← oh_compress_one_block key b t false
  ok (bit_xor u v)

-- A block with the chunk `x` at a place that is not the last.
pub record Placed : Type 0 where
  pub before : List Bytes
  pub chunk : Bytes
  pub next : Bytes
  pub after : List Bytes

abbrev pub block_of : Placed → List Bytes
block_of p = p.before ++ p.chunk ∷ p.next ∷ p.after

-- The key with the words (ka, kb) at that place.
abbrev pub key_of : List ℕ → ℕ → ℕ → List ℕ → List ℕ
key_of pre ka kb post = pre ++ ka ∷ kb ∷ post

-- The key words `pre` belong to the chunks before the place, and there are words for all chunks,
-- which have 16 bytes.
pub record IsPlaced (pre post : List ℕ) (p : Placed) : Type 0 where
  pub place : length pre ≡ 2 * length p.before
  pub keys : 2 * length (block_of p) ≤ length pre + suc (suc (length post))
  pub sized : All (λ c. length c ≡ 16) (block_of p)
