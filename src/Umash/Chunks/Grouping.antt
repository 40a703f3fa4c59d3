-- ===== src/Umash/Chunks/Grouping.antt =====
-- The blocks that blockify_chunks makes of an input: which chunks they hold, and how many there are.
use mathlib.Core.List.{append-nil, append_assoc}
use umash.Prelude.{
  ℕ, ◌+◌, ◌/◌, ◌≤◌, ◌≡◌, refl, sym, ap, ◌∙◌, List, [], ◌∷◌, ◌++◌, length, All, All-append, map, inl,
  inr, arith,
}
use umash.Python.{from_list}
use umash.Umash.Chunks.{Bytes, Chunk, Block, chunk_bytes, blockify_chunks}
use umash.Umash.Chunks.Stream.{total_size}
use umash.Umash.Chunks.Cut.{IsCutOf, chunks_of, chunk_bytes-chunks_of, chunks_of-IsCutOf}
use umash.Umash.Chunks.Blocks.{
  group, all_chunks, block_sizes, IsBlocked, block, Fits, Fits-full, Fits-room, full_or_room,
  group_full, group_room, blockify_loop-group,
}

all_chunks-group :
    (acc : List Bytes) (size : ℕ) (cs : List Chunk)
    → Fits acc size cs
    → all_chunks (group acc size cs) ≡ acc ++ map (λ c. c.bytes) cs
unfolding all_chunks
all_chunks-group acc size [] f = unfold group in append-nil acc ∙ sym (append-nil acc)
all_chunks-group acc size (c ∷ cs) f = elim (full_or_room f) [
  | inl full ↦
      ap all_chunks (group_full acc size c cs full)
      ∙ ap (λ t. acc ++ t) (all_chunks-group (c.bytes ∷ []) c.size cs (Fits-full f))
  | inr room ↦
      ap all_chunks (group_room acc size c cs room)
      ∙ all_chunks-group (acc ++ c.bytes ∷ []) (size + c.size) cs (Fits-room f room)
      ∙ append_assoc acc (c.bytes ∷ []) _
]

block_sizes-group :
    (acc : List Bytes) (size : ℕ) (cs : List Chunk)
    → Fits acc size cs
    → block_sizes (group acc size cs) ≡ size + total_size cs
unfolding total_size block_sizes
block_sizes-group acc size [] f = unfold group in refl
block_sizes-group acc size (c ∷ cs) f = elim (full_or_room f) [
  | inl full ↦
      ap block_sizes (group_full acc size c cs full)
      ∙ ap (λ t. size + t) (block_sizes-group (c.bytes ∷ []) c.size cs (Fits-full f))
  | inr room ↦
      ap block_sizes (group_room acc size c cs room)
      ∙ block_sizes-group (acc ++ c.bytes ∷ []) (size + c.size) cs (Fits-room f room)
      ∙ omega arith
]

IsBlocked-cons :
    (b : Block) (bs : List Block)
    → length b.chunks ≡ 16
    → b.size ≡ 256
    → IsBlocked bs
    → IsBlocked (b ∷ bs)
IsBlocked-cons b [] full sized h = omega arith
IsBlocked-cons b (c ∷ bs) full sized h = (full, sized, h)

IsBlocked-group :
    (acc : List Bytes) (size : ℕ) (cs : List Chunk)
    → Fits acc size cs
    → IsBlocked (group acc size cs)
IsBlocked-group acc size [] f =
    unfold group in (omega (arith, f.some), f.room, f.lower (omega (arith, f.some)), f.upper)
IsBlocked-group acc size (c ∷ cs) f = elim (full_or_room f) [
  | inl full ↦ rw group_full (
      IsBlocked-cons (block acc size) _ full (omega (arith, f.sized))
        (IsBlocked-group (c.bytes ∷ []) c.size cs (Fits-full f)))
  | inr room ↦
      rw group_room (IsBlocked-group (acc ++ c.bytes ∷ []) (size + c.size) cs (Fits-room f room))
]

module _ (P : Bytes → Type 0) where
  All-group :
      (acc : List Bytes) (size : ℕ) (cs : List Chunk)
      → Fits acc size cs
      → All P acc
      → All (λ c. P c.bytes) cs
      → All (λ b. All P b.chunks) (group acc size cs)
  All-group acc size [] f h k = unfold group in (h, tt)
  All-group acc size (c ∷ cs) f h k = elim (full_or_room f) [
    | inl full ↦ rw group_full (h, All-group (c.bytes ∷ []) c.size cs (Fits-full f) (k.0, tt) k.1)
    | inr room ↦ rw group_room (
        All-group (acc ++ c.bytes ∷ []) (size + c.size) cs (Fits-room f room)
          (All-append P acc _ h (k.0, tt)) k.1)
  ]

length-IsBlocked : (bs : List Block) → IsBlocked bs → length bs ≡ (block_sizes bs + 255) / 256
unfolding block_sizes
length-IsBlocked [] h = refl
length-IsBlocked (b ∷ []) h = omega arith
length-IsBlocked (b ∷ c ∷ bs) h = omega (arith, length-IsBlocked (c ∷ bs) h.2)

-- The blocks of an input: 16 full chunks each but for the last, one block for each 256 bytes or
-- part of such, and together the chunks that chunk_bytes yields, in their order.
pub record IsGroupingOf (buf : Bytes) (bs : List Block) : Type 0 where
  pub blocked : IsBlocked bs
  pub count : length bs ≡ (length buf + 255) / 256
  pub total : block_sizes bs ≡ length buf
  pub chunks : all_chunks bs ≡ map (λ c. c.bytes) (chunks_of buf)

pub blocks_of : Bytes → List Block
blocks_of buf = group [] 0 (chunks_of buf)

module _ (buf : Bytes) (low : 8 ≤ length buf) where
  cut : IsCutOf buf (chunks_of buf)
  cut = chunks_of-IsCutOf buf low

  Fits-chunks_of : Fits [] 0 (chunks_of buf)
  Fits-chunks_of = record {
    room = omega arith;
    some = omega (arith, cut.nonempty);
    sized = λ h. refl;
    lower = λ h. absurd (omega arith);
    upper = omega arith;
    rest = cut.chunked;
  }

  pub blockify-blocks_of : blockify_chunks (chunk_bytes buf) ≡ from_list (blocks_of buf)
  unfolding blockify_chunks blocks_of
  blockify-blocks_of =
      rw (chunk_bytes-chunks_of buf low) (blockify_loop-group [] 0 (chunks_of buf) Fits-chunks_of)

  pub IsGroupingOf-blocks_of : IsGroupingOf buf (blocks_of buf)
  unfolding blocks_of
  IsGroupingOf-blocks_of =
      let sizes = block_sizes-group [] 0 (chunks_of buf) Fits-chunks_of in
      let blocked = IsBlocked-group [] 0 (chunks_of buf) Fits-chunks_of in
      record {
        blocked = blocked;
        count =
            omega (arith, length-IsBlocked (group [] 0 (chunks_of buf)) blocked, sizes, cut.total);
        total = omega (arith, sizes, cut.total);
        chunks = all_chunks-group [] 0 (chunks_of buf) Fits-chunks_of;
      }

  pub All-blocks_of :
      (P : Bytes → Type 0)
      → All (λ c. P c.bytes) (chunks_of buf)
      → All (λ b. All P b.chunks) (blocks_of buf)
  unfolding blocks_of
  All-blocks_of P h = All-group P [] 0 (chunks_of buf) Fits-chunks_of tt h

-- blockify_chunks after chunk_bytes: for an input of at least 8 bytes no assertion fails, every
-- block but the last has 16 chunks and 256 bytes, the last has 1 to 16 chunks and at least one
-- byte, there is one block for each 256 bytes or part of such, the sizes add up to the length of
-- the input, and the chunks of the blocks, joined, are those of the input in their order.
pub blockify-chunk_bytes :
    (buf : Bytes)
    → 8 ≤ length buf
    → (bs : List Block) × (blockify_chunks (chunk_bytes buf) ≡ from_list bs) × IsGroupingOf buf bs
blockify-chunk_bytes buf low =
    (blocks_of buf, blockify-blocks_of buf low, IsGroupingOf-blocks_of buf low)
