-- ===== src/Umash/Chunks/Cut.antt =====
-- chunk_bytes as a whole: its stream for every length of the input.
use native.Mathlib.Nat.{zero-add, suc-add}
use mathlib.Core.List.{append-nil}
use umash.Prelude.{
  ℕ, zero, suc, ◌+◌, ◌-◌, ◌≤◌, ◌<◌, ◌≡◌, refl, sym, ap, ◌∙◌, List, [], ◌∷◌, ◌++◌, length, take,
  drop, drop-drop, length-append, length-take, length-drop, take-append-drop, All, All-append,
  All-take, All-drop, ltb, le→leb, Bool-cases, inl, inr, if◌then◌else◌, arith,
}
use umash.Python.{fail, from_list, IsBytes, assertion_error}
use umash.Umash.Chunks.{Bytes, Chunk, rounds_for, chunk_at, chunk_bytes, chunk_loop}
use umash.Umash.Chunks.Stream.{
  chunk_list, size-chunk_at, chunk_loop-list, total_size, rebuild, IsChunked, new_bytes,
  IsChunked-chunk_list, total_size-chunk_list, rebuild-chunk_list, IsBytes-chunk_list,
}

-- The one chunk of an input of fewer than 16 bytes: its first 8 and its last 8 bytes.
abbrev short_chunk : Bytes → Chunk
short_chunk buf = record { bytes = take 8 buf ++ drop (length buf - 8) buf; size = length buf }

-- The chunks that chunk_bytes yields, as a list.
pub chunks_of : Bytes → List Chunk
chunks_of buf =
    if ltb (length buf) 16
    then short_chunk buf ∷ []
    else chunk_list (suc (rounds_for (length buf) - 1)) 0 buf

-- Puts an input together again: a chunk that is alone starts with the first 8 bytes and ends with
-- the last ones, and of several chunks each ends with its new bytes.
pub reassemble : List Chunk → Bytes
reassemble [] = []
reassemble (c ∷ []) = take 8 c.bytes ++ drop (24 - c.size) c.bytes
reassemble (c ∷ d ∷ cs) = rebuild (c ∷ d ∷ cs)

-- The chunks of an input: 16 bytes each, all full but the last, with sizes that add up.
pub record IsCutOf (buf : Bytes) (cs : List Chunk) : Type 0 where
  pub chunked : IsChunked cs
  pub nonempty : 1 ≤ length cs
  pub total : total_size cs ≡ length buf

take-take_append : (n : ℕ) (xs ys : Bytes) → n ≤ length xs → take n (take n xs ++ ys) ≡ take n xs
take-take_append zero xs ys h = refl
take-take_append (suc n) [] ys h = absurd (omega arith)
take-take_append (suc n) (x ∷ xs) ys h = ap (λ t. x ∷ t) (take-take_append n xs ys (omega arith))

drop-append : (n k : ℕ) (xs ys : Bytes) → length xs ≡ k → drop (k + n) (xs ++ ys) ≡ drop n ys
drop-append n zero [] ys h = ap (λ m. drop m ys) (zero-add n)
drop-append n (suc k) [] ys h = absurd (omega arith)
drop-append n zero (x ∷ xs) ys h = absurd (omega arith)
drop-append n (suc k) (x ∷ xs) ys h =
    ap (λ m. drop m (x ∷ (xs ++ ys))) (suc-add k n) ∙ drop-append n k xs ys (omega arith)

module _ (buf : Bytes) (low : 8 ≤ length buf) where
  pub chunk_bytes-chunks_of : chunk_bytes buf ≡ from_list (chunks_of buf)
  unfolding chunk_bytes chunks_of
  chunk_bytes-chunks_of = elim (Bool-cases (ltb (length buf) 16)) [
    | inl short ↦ rw (le→leb _ _ low, short) refl
    | inr long ↦
        let rounds = rounds_for (length buf) - 1 in
        let count : rounds_for (length buf) ≡ suc rounds = ground arith in
        rw (le→leb _ _ low, long)
          (ap (λ r. chunk_loop r 0 buf) count ∙ chunk_loop-list (suc rounds) 0 buf)
  ]

  pub chunks_of-IsCutOf : IsCutOf buf (chunks_of buf)
  unfolding chunks_of total_size
  chunks_of-IsCutOf = elim (Bool-cases (ltb (length buf) 16)) [
    | inl short ↦ rw short (record {
      chunked = (
        length-append (take 8 buf) _
            ∙ omega (arith, length-take 8 buf, length-drop (length buf - 8) buf),
        omega arith,
        ground arith,
      );
      nonempty = omega arith;
      total = omega arith;
    })
    | inr long ↦
        let rounds = rounds_for (length buf) - 1 in
        let enough : 16 ≤ length buf = ground arith in
        rw long (record {
          chunked = IsChunked-chunk_list buf enough (suc rounds) 0 (omega arith) (omega arith);
          nonempty = unfold chunk_list in omega arith;
          total =
              total_size-chunk_list buf enough rounds 0 (omega arith) (omega arith) ∙ omega arith;
        })
  ]

  expand_short :
      length buf < 16
      → take 8 (take 8 buf ++ drop (length buf - 8) buf)
          ++ drop (24 - length buf) (take 8 buf ++ drop (length buf - 8) buf)
        ≡ buf
  expand_short short =
      let taken : length (take 8 buf) ≡ 8 = omega (arith, length-take 8 buf) in
      let count : 24 - length buf ≡ 8 + (16 - length buf) = omega arith in
      let middle : length buf - 8 + (16 - length buf) ≡ 8 = omega arith in
      rw
        (
          take-take_append 8 buf _ low,
          count,
          drop-append (16 - length buf) 8 (take 8 buf) (drop (length buf - 8) buf) taken,
          drop-drop (16 - length buf) (length buf - 8) buf,
          middle,
        )
        (take-append-drop 8 buf)

  reassemble_long :
      16 ≤ length buf
      → (rounds : ℕ) → suc rounds ≡ rounds_for (length buf)
      → reassemble (chunk_list (suc rounds) 0 buf) ≡ rebuild (chunk_list (suc rounds) 0 buf)
  unfolding reassemble chunk_list rebuild new_bytes
  reassemble_long enough zero e =
      let full : (chunk_at buf 0).size ≡ 16 = ground (arith, size-chunk_at buf enough 0) in
      rw full (take-append-drop 8 (chunk_at buf 0).bytes ∙ sym (append-nil _))
  reassemble_long enough (suc rounds) e = refl

  pub reassemble-chunks_of : reassemble (chunks_of buf) ≡ buf
  unfolding chunks_of reassemble
  reassemble-chunks_of = elim (Bool-cases (ltb (length buf) 16)) [
    | inl short ↦ rw short (expand_short (ground arith))
    | inr long ↦
        let rounds = rounds_for (length buf) - 1 in
        let enough : 16 ≤ length buf = ground arith in
        rw long (
          reassemble_long enough rounds (omega arith)
          ∙ rebuild-chunk_list buf enough rounds 0 (omega arith) (omega arith))
  ]

  pub IsBytes-chunks_of : IsBytes buf → All (λ c. IsBytes c.bytes) (chunks_of buf)
  unfolding chunks_of
  IsBytes-chunks_of h = elim (Bool-cases (ltb (length buf) 16)) [
    | inl short ↦ rw short (
      All-append (λ b. b < 256) (take 8 buf) _ (All-take (λ b. b < 256) 8 buf h)
          (All-drop (λ b. b < 256) (length buf - 8) buf h),
      tt,
    )
    | inr long ↦
        rw long (IsBytes-chunk_list buf (ground arith) (suc (rounds_for (length buf) - 1)) 0 h)
  ]

-- chunk_bytes cuts every input of at least 8 bytes into 16-byte chunks, all full but the last,
-- whose sizes add up to its length and from which the input can be put together again.
pub chunk_bytes-cut :
    (buf : Bytes)
    → 8 ≤ length buf
    → (cs : List Chunk) × (chunk_bytes buf ≡ from_list cs) × IsCutOf buf cs × (reassemble cs ≡ buf)
chunk_bytes-cut buf low = (
  chunks_of buf,
  chunk_bytes-chunks_of buf low,
  chunks_of-IsCutOf buf low,
  reassemble-chunks_of buf low,
)

-- A shorter input raises an AssertionError before the first chunk.
pub chunk_bytes_too_short : (buf : Bytes) → length buf < 8 → chunk_bytes buf ≡ fail assertion_error
unfolding chunk_bytes
chunk_bytes_too_short buf h = ground arith
