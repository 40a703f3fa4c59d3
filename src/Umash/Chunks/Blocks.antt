-- ===== src/Umash/Chunks/Blocks.antt =====
-- blockify_chunks groups the chunks of an input into blocks of 16, the last of which may have
-- fewer; no assertion of its fails on the chunks that chunk_bytes yields.
use native.Mathlib.Nat.{zero-add}
use umash.Prelude.{
  ℕ, ◌+◌, ◌*◌, ◌≤◌, ◌<◌, ◌≡◌, refl, sym, ap, ◌∙◌, true, false, List, [], ◌∷◌, ◌++◌, length,
  length-append, le→leb, ◌⊎◌, ◌==◌, inl, inr, arith,
}
use umash.Python.{Gen, yield, from_list}
use umash.Umash.Chunks.{Bytes, Chunk, Block, blockify_loop}
use umash.Umash.Chunks.Stream.{IsChunked}

-- The blocks that the loop yields from `acc` and `size` on, as a list.
unfoldable pub group : List Bytes → ℕ → List Chunk → List Block
group acc size [] = record { chunks = acc; size = size } ∷ []
group acc size (c ∷ cs) = elim (length acc == 16) [
  | true ↦ record { chunks = acc; size = size } ∷ group (c.bytes ∷ []) c.size cs
  | false ↦ group (acc ++ c.bytes ∷ []) (size + c.size) cs
]

unfoldable pub all_chunks : List Block → List Bytes
all_chunks [] = []
all_chunks (b ∷ bs) = b.chunks ++ all_chunks bs

unfoldable pub block_sizes : List Block → ℕ
block_sizes [] = 0
block_sizes (b ∷ bs) = b.size + block_sizes bs

-- Blocks of 16 full chunks, but for the last, which has 1 to 16 chunks and 1 to 256 bytes.
abbrev pub IsBlocked : List Block → Type 0
IsBlocked [] = Unit
IsBlocked (b ∷ []) =
    (1 ≤ length b.chunks) × (length b.chunks ≤ 16) × (1 ≤ b.size) × (b.size ≤ 16 * length b.chunks)
IsBlocked (b ∷ c ∷ bs) = (length b.chunks ≡ 16) × (b.size ≡ 256) × IsBlocked (c ∷ bs)

pub length-snoc : (acc : List Bytes) (c : Bytes) → length (acc ++ c ∷ []) ≡ length acc + 1
length-snoc acc c = length-append acc (c ∷ [])

abbrev pub block : List Bytes → ℕ → Block
block acc size = record { chunks = acc; size = size }

module _ (acc : List Bytes) (size : ℕ) (c : Chunk) where
  blockify_loop_full :
      (rest : Gen Chunk)
      → length acc ≡ 16
      → size ≡ 256
      → length c.bytes ≡ 16
      → blockify_loop acc size (yield c rest)
        ≡ yield (block acc size) (blockify_loop (c.bytes ∷ []) c.size rest)
  unfolding blockify_loop
  blockify_loop_full rest full sized bytes =
      rw (full, sized, bytes)
        (ap (λ t. yield (block acc 256) (blockify_loop (c.bytes ∷ []) t rest)) (zero-add c.size))

  blockify_loop_room :
      (rest : Gen Chunk)
      → length acc < 16
      → length c.bytes ≡ 16
      → blockify_loop acc size (yield c rest)
        ≡ blockify_loop (acc ++ c.bytes ∷ []) (size + c.size) rest
  unfolding blockify_loop
  blockify_loop_room rest room bytes =
      let not_full : (length acc == 16) ≡ false = ground arith in
      rw (bytes, le→leb (length acc) 16 (omega arith), not_full) refl

  pub group_full :
      (cs : List Chunk)
      → length acc ≡ 16
      → group acc size (c ∷ cs) ≡ block acc size ∷ group (c.bytes ∷ []) c.size cs
  unfolding group
  group_full cs full = rw (full, group) refl

  pub group_room :
      (cs : List Chunk)
      → length acc < 16
      → group acc size (c ∷ cs) ≡ group (acc ++ c.bytes ∷ []) (size + c.size) cs
  unfolding group
  group_room cs room =
      let not_full : (length acc == 16) ≡ false = ground arith in rw (not_full, group) refl

-- What a chunk and the chunks after it satisfy.
pub record IsNext (c : Chunk) (cs : List Chunk) : Type 0 where
  pub bytes : length c.bytes ≡ 16
  pub lower : 1 ≤ c.size
  pub upper : c.size ≤ 16
  pub full : 1 ≤ length cs → c.size ≡ 16
  pub rest : IsChunked cs

IsChunked-IsNext : (c : Chunk) (cs : List Chunk) → IsChunked (c ∷ cs) → IsNext c cs
IsChunked-IsNext c [] k = record {
  bytes = k.0;
  lower = k.1;
  upper = k.2;
  full = λ h. absurd (omega arith);
  rest = tt;
}
IsChunked-IsNext c (d ∷ cs) k = record {
  bytes = k.0;
  lower = omega arith;
  upper = omega arith;
  full = λ h. k.1;
  rest = k.2;
}

-- The loop variables before a chunk: `acc` is full of full chunks as far as it goes.
pub record Fits (acc : List Bytes) (size : ℕ) (cs : List Chunk) : Type 0 where
  pub room : length acc ≤ 16
  pub some : 1 ≤ length acc + length cs
  pub sized : 1 ≤ length cs → size ≡ 16 * length acc
  pub lower : 1 ≤ length acc → 1 ≤ size
  pub upper : size ≤ 16 * length acc
  pub rest : IsChunked cs

module _ {acc : List Bytes} {size : ℕ} {c : Chunk} {cs : List Chunk}
    (f : Fits acc size (c ∷ cs)) where
  pub next : IsNext c cs
  next = IsChunked-IsNext c cs f.rest

  pub Fits-full : Fits (c.bytes ∷ []) c.size cs
  Fits-full = record {
    room = omega arith;
    some = omega arith;
    sized = λ h. omega (arith, next.full h);
    lower = λ h. next.lower;
    upper = omega (arith, next.upper);
    rest = next.rest;
  }

  pub Fits-room : length acc < 16 → Fits (acc ++ c.bytes ∷ []) (size + c.size) cs
  Fits-room room =
      let longer = length-snoc acc c.bytes in
      let size_before = f.sized (omega arith) in
      record {
        room = omega arith;
        some = omega arith;
        sized = λ h. omega (arith, next.full h);
        lower = λ h. omega (arith, next.lower);
        upper = omega (arith, next.upper);
        rest = next.rest;
      }

  pub full_or_room : (length acc ≡ 16) ⊎ (length acc < 16)
  full_or_room = omega (arith, f.room)

-- From such variables no assertion fails, and the loop yields the groups.
pub blockify_loop-group :
    (acc : List Bytes) (size : ℕ) (cs : List Chunk)
    → Fits acc size cs
    → blockify_loop acc size (from_list cs) ≡ from_list (group acc size cs)
blockify_loop-group [] size [] f = absurd (omega (arith, f.some))
blockify_loop-group (x ∷ acc) size [] f = unfold blockify_loop group in refl
blockify_loop-group acc size (c ∷ cs) f = elim (full_or_room f) [
  | inl full ↦
      blockify_loop_full acc size c (from_list cs) full (omega (arith, f.sized)) (next f).bytes
      ∙ ap (yield (block acc size)) (blockify_loop-group (c.bytes ∷ []) c.size cs (Fits-full f))
      ∙ ap from_list (sym (group_full acc size c cs full))
  | inr room ↦
      blockify_loop_room acc size c (from_list cs) room (next f).bytes
      ∙ blockify_loop-group (acc ++ c.bytes ∷ []) (size + c.size) cs (Fits-room f room)
      ∙ ap from_list (sym (group_room acc size c cs room))
]
