-- ===== src/Umash/Hash.antt =====
-- umash_long and umash: the whole hash.
pub mod Blocks
pub mod Long
pub mod Total
mod Tests
use umash.Prelude.{ℕ, ◌/◌, Bool, List, length, drop, leb, if◌then◌else◌}
use umash.Python.{Result, ok, ◌>>=◌, ◌>>◌, assert}
use umash.Umash.Params.{chunk_size, short_key_shift, UmashKey}
use umash.Umash.Short.{umash_short}
use umash.Umash.Chunks.{Bytes, chunk_bytes, blockify_chunks}
use umash.Umash.Oh.{oh_compress}
use umash.Umash.Poly.{poly_reduce}
use umash.Umash.Finalize.{finalize}

pub umash_long : UmashKey → ℕ → Bytes → Bool → Result ℕ
umash_long key seed buf secondary = do
  assert (leb (chunk_size / 2) (length buf))
  let blocks = blockify_chunks (chunk_bytes buf)
  let oh_values = oh_compress key.oh seed blocks secondary
  poly_acc ← poly_reduce key.poly (length buf) oh_values 0
  ok (finalize poly_acc)

-- The function `umash`.
pub umash_hash : UmashKey → ℕ → Bytes → Bool → Result ℕ
umash_hash key seed buf secondary =
    if leb (length buf) (chunk_size / 2)
    then umash_short (if secondary then drop short_key_shift key.oh else key.oh) seed buf
    else umash_long key seed buf secondary
