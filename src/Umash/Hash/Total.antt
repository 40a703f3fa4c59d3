-- ===== src/Umash/Hash/Total.antt =====
-- umash on every input.
use umash.Prelude.{
  ℕ, ◌≤◌, ◌<◌, ◌≡◌, refl, sym, ◌∙◌, Bool, true, false, ◌⊎◌, List, length, drop, length-drop, leb,
  if◌then◌else◌, inl, inr, le→leb, arith,
}
use umash.Python.{ok, IsBytes}
use umash.Umash.Params.{w, UmashKey, IsKey}
use umash.Umash.Chunks.{Bytes}
use umash.Umash.Short.{umash_short}
use umash.Umash.Short.Laws.{umash_short-ok, umash_short-inj}
use umash.Umash.Finalize.Inverse.{finalize-lt}
use umash.Umash.Hash.{umash_long, umash_hash}
use umash.Umash.Hash.Long.{umash_long-polynomial}

short_key : UmashKey → Bool → List ℕ
short_key key secondary = if secondary then drop 4 key.oh else key.oh

short_key-long :
    (key : UmashKey) (secondary : Bool) → IsKey key → 8 < length (short_key key secondary)
unfolding short_key
short_key-long key true k = omega (arith, length-drop 4 key.oh, k.oh_length)
short_key-long key false k = omega (arith, k.oh_length)

umash_hash-short :
    (key : UmashKey) (seed : ℕ) (buf : Bytes) (secondary : Bool)
    → length buf ≤ 8
    → umash_hash key seed buf secondary ≡ umash_short (short_key key secondary) seed buf
unfolding umash_hash short_key
umash_hash-short key seed buf secondary h = rw (le→leb _ _ h) refl

umash_hash-long :
    (key : UmashKey) (seed : ℕ) (buf : Bytes) (secondary : Bool)
    → 8 < length buf
    → umash_hash key seed buf secondary ≡ umash_long key seed buf secondary
unfolding umash_hash
umash_hash-long key seed buf secondary h =
    let long : leb (length buf) 8 ≡ false = ground arith in rw long refl

-- For a key as generate_key makes it, umash returns a 64-bit hash for every byte string, every
-- seed and both compressors: no assertion, index or unpacking fails.
pub umash_hash_total :
    (key : UmashKey) (seed : ℕ) (buf : Bytes) (secondary : Bool)
    → IsKey key
    → IsBytes buf
    → (h : ℕ) × (umash_hash key seed buf secondary ≡ ok h) × (h < w)
umash_hash_total key seed buf secondary k bytes =
    let cases : (length buf ≤ 8) ⊎ (8 < length buf) = omega arith in
    elim cases [
      | inl short ↦
          let (h, runs, small) =
            umash_short-ok (short_key key secondary) seed buf (short_key-long key secondary k) short
              bytes in
          (h, umash_hash-short key seed buf secondary short ∙ runs, small)
      | inr long ↦
          let (h, runs, is) = umash_long-polynomial key seed buf secondary k (omega arith) bytes in
          let bound : is.acc < w = omega (arith, is.bounded) in
          let small : h < w = rw is.final (finalize-lt is.acc bound) in
          (h, umash_hash-long key seed buf secondary long ∙ runs, small)
    ]

-- Two inputs of the same length, at most 8 bytes, never collide under umash, whatever the seed,
-- the key and the compressor.
pub umash_hash_short_inj :
    (key : UmashKey) (seed : ℕ) (a b : Bytes) (secondary : Bool)
    → IsKey key
    → length a ≤ 8
    → length a ≡ length b
    → IsBytes a
    → IsBytes b
    → umash_hash key seed a secondary ≡ umash_hash key seed b secondary
    → a ≡ b
umash_hash_short_inj key seed a b secondary k short same bytes_a bytes_b collide =
    umash_short-inj (short_key key secondary) seed a b (short_key-long key secondary k) short same
      bytes_a bytes_b
      (sym (umash_hash-short key seed a secondary short)
        ∙ collide
        ∙ umash_hash-short key seed b secondary (omega arith))
