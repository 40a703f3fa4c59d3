-- ===== src/Umash/Chunks/Stream.antt =====
-- chunk_bytes yields 16-byte chunks whose sizes add up to the input's, all full but the last, and
-- from which the input can be put together again.
use mathlib.Core.List.{append-nil}
use umash.Prelude.{
  drop-drop, drop_all, ℕ, zero, suc, ◌+◌, ◌-◌, ◌≤◌, ◌<◌, ◌≡◌, refl, sym, ap, ◌∙◌, List, [], ◌∷◌,
  ◌++◌, length, drop, length-take, length-drop, take-append-drop, All, All-take, All-drop, leb,
  Bool-cases, inl, inr, if◌then◌else◌, arith,
}
use umash.Python.{yield, from_list, IsBytes}
use umash.Umash.Chunks.{Bytes, Chunk, chunk_at, chunk_loop, rounds_for}

-- The chunks that the loop yields, as a list.
unfoldable pub chunk_list : ℕ → ℕ → Bytes → List Chunk
chunk_list zero i buf = []
chunk_list (suc rounds) i buf = chunk_at buf i ∷ chunk_list rounds (i + 16) buf

unfoldable pub total_size : List Chunk → ℕ
total_size [] = 0
total_size (c ∷ cs) = c.size + total_size cs

-- The bytes of a chunk that no chunk before it holds: its last `size` ones.
unfoldable pub new_bytes : Chunk → Bytes
new_bytes c = drop (16 - c.size) c.bytes

unfoldable pub rebuild : List Chunk → Bytes
rebuild [] = []
rebuild (c ∷ cs) = new_bytes c ++ rebuild cs

-- 16 bytes each, all full but the last.
abbrev pub IsChunked : List Chunk → Type 0
IsChunked [] = Unit
IsChunked (c ∷ []) = (length c.bytes ≡ 16) × (1 ≤ c.size) × (c.size ≤ 16)
IsChunked (c ∷ d ∷ cs) = (length c.bytes ≡ 16) × (c.size ≡ 16) × IsChunked (d ∷ cs)

pub chunk_loop-list :
    (rounds i : ℕ) (buf : Bytes) → chunk_loop rounds i buf ≡ from_list (chunk_list rounds i buf)
unfolding chunk_loop chunk_list
chunk_loop-list zero i buf = refl
chunk_loop-list (suc rounds) i buf =
    ap (yield (chunk_at buf i)) (chunk_loop-list rounds (i + 16) buf)

module _ (buf : Bytes) (long : 16 ≤ length buf) where
  length-chunk_at : (i : ℕ) → length (chunk_at buf i).bytes ≡ 16
  unfolding chunk_at
  length-chunk_at i = ground (
    arith,
    length-take (i + 16 - i) (drop i buf),
    length-drop i buf,
    length-drop (length buf - 16) buf,
  )

  pub size-chunk_at :
      (i : ℕ) → (chunk_at buf i).size ≡ (if leb (i + 16) (length buf) then 16 else length buf - i)
  unfolding chunk_at
  size-chunk_at i = ground arith

  new_bytes-chunk_at :
      (i : ℕ) → i < length buf → new_bytes (chunk_at buf i) ++ drop (i + 16) buf ≡ drop i buf
  unfolding new_bytes chunk_at
  new_bytes-chunk_at i h = elim (Bool-cases (leb (i + 16) (length buf))) [
    | inl inside ↦
        let sixteen : i + 16 - i ≡ 16 = omega arith in
        rw (inside, sixteen, ← drop-drop 16 i buf) (take-append-drop 16 (drop i buf))
    | inr beyond ↦
        let start : length buf - 16 + (16 - (length buf - i)) ≡ i = ground arith in
        rw
          (
            beyond,
            drop-drop (16 - (length buf - i)) (length buf - 16) buf,
            start,
            drop_all (i + 16) buf (ground arith),
          )
          (append-nil _)
  ]

  pub IsChunked-chunk_list :
      (rounds i : ℕ)
      → i < length buf
      → rounds ≡ rounds_for (length buf - i)
      → IsChunked (chunk_list rounds i buf)
  unfolding chunk_list
  IsChunked-chunk_list zero i h e = tt
  IsChunked-chunk_list (suc zero) i h e =
      (length-chunk_at i, ground (arith, size-chunk_at i), ground (arith, size-chunk_at i))
  IsChunked-chunk_list (suc (suc rounds)) i h e = (
    length-chunk_at i,
    ground (arith, size-chunk_at i),
    IsChunked-chunk_list (suc rounds) (i + 16) (omega arith) (omega arith),
  )

  pub total_size-chunk_list :
      (rounds i : ℕ)
      → i < length buf
      → suc rounds ≡ rounds_for (length buf - i)
      → total_size (chunk_list (suc rounds) i buf) ≡ length buf - i
  unfolding chunk_list total_size
  total_size-chunk_list zero i h e = ground (arith, size-chunk_at i)
  total_size-chunk_list (suc rounds) i h e =
      let rest = total_size-chunk_list rounds (i + 16) (omega arith) (omega arith) in
      ground (arith, size-chunk_at i, rest)

  pub rebuild-chunk_list :
      (rounds i : ℕ)
      → i < length buf
      → suc rounds ≡ rounds_for (length buf - i)
      → rebuild (chunk_list (suc rounds) i buf) ≡ drop i buf
  unfolding chunk_list rebuild
  rebuild-chunk_list zero i h e =
      ap (λ t. new_bytes (chunk_at buf i) ++ t) (sym (drop_all (i + 16) buf (omega arith)))
      ∙ new_bytes-chunk_at i h
  rebuild-chunk_list (suc rounds) i h e =
      ap (λ t. new_bytes (chunk_at buf i) ++ t)
        (rebuild-chunk_list rounds (i + 16) (omega arith) (omega arith))
      ∙ new_bytes-chunk_at i h

  pub IsBytes-chunk_list :
      (rounds i : ℕ) → IsBytes buf → All (λ c. IsBytes c.bytes) (chunk_list rounds i buf)
  unfolding chunk_list chunk_at
  IsBytes-chunk_list zero i h = tt
  IsBytes-chunk_list (suc rounds) i h = (
    elim (Bool-cases (leb (i + 16) (length buf))) [
      | inl inside ↦
          rw inside (All-take (λ b. b < 256) (i + 16 - i) _ (All-drop (λ b. b < 256) i buf h))
      | inr beyond ↦ rw beyond (All-drop (λ b. b < 256) (length buf - 16) buf h)
    ],
    IsBytes-chunk_list rounds (i + 16) h,
  )
