-- ===== src/Umash/Hash/Blocks.antt =====
-- The blocks of an input are blocks that the compressor takes.
use umash.Prelude.{◌≤◌, ◌≡◌, List, [], ◌∷◌, length, All, arith}
use umash.Python.{IsBytes}
use umash.Umash.Chunks.{Bytes, Chunk, Block}
use umash.Umash.Chunks.Stream.{IsChunked}
use umash.Umash.Chunks.Cut.{chunks_of, chunks_of-IsCutOf, IsBytes-chunks_of}
use umash.Umash.Chunks.Blocks.{IsBlocked}
use umash.Umash.Chunks.Grouping.{blocks_of, IsGroupingOf-blocks_of, All-blocks_of}
use umash.Umash.Oh.Total.{IsBlock}

IsChunked-sized : (cs : List Chunk) → IsChunked cs → All (λ c. length c.bytes ≡ 16) cs
IsChunked-sized [] h = tt
IsChunked-sized (c ∷ []) h = (h.0, tt)
IsChunked-sized (c ∷ d ∷ cs) h = (h.0, IsChunked-sized (d ∷ cs) h.2)

IsBlocked-room : (bs : List Block) → IsBlocked bs → All (λ b. length b.chunks ≤ 16) bs
IsBlocked-room [] h = tt
IsBlocked-room (b ∷ []) h = (h.1, tt)
IsBlocked-room (b ∷ c ∷ bs) h = (omega arith, IsBlocked-room (c ∷ bs) h.2)

All-IsBlock :
    (bs : List Block)
    → All (λ b. length b.chunks ≤ 16) bs
    → All (λ b. All (λ c. length c ≡ 16) b.chunks) bs
    → All (λ b. All IsBytes b.chunks) bs
    → All (λ b. IsBlock b.chunks) bs
All-IsBlock [] room sized bytes = tt
All-IsBlock (b ∷ bs) room sized bytes = (
  record { room = room.0; sized = sized.0; bytes = bytes.0 },
  All-IsBlock bs room.1 sized.1 bytes.1,
)

pub IsBlock-blocks_of :
    (buf : Bytes) → 8 ≤ length buf → IsBytes buf → All (λ b. IsBlock b.chunks) (blocks_of buf)
IsBlock-blocks_of buf low bytes =
    let blocked = (IsGroupingOf-blocks_of buf low).blocked in
    let sized = IsChunked-sized (chunks_of buf) (chunks_of-IsCutOf buf low).chunked in
    All-IsBlock (blocks_of buf) (IsBlocked-room _ blocked)
      (All-blocks_of buf low (λ c. length c ≡ 16) sized)
      (All-blocks_of buf low IsBytes (IsBytes-chunks_of buf low bytes))
