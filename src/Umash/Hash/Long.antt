-- ===== src/Umash/Hash/Long.antt =====
-- umash_long: the finalised polynomial hash of one compressed value per block.
use umash.Prelude.{
  ℕ, ◌+◌, ◌-◌, ◌/◌, ◌%◌, ◌≤◌, ◌<◌, ◌≡◌, refl, sym, ap, ◌∙◌, Bool, List, length, le→leb, arith,
}
use umash.Python.{ok, ok_inj, IsBytes, from_list}
use umash.Umash.Params.{w, modulus, UmashKey, IsKey}
use umash.Umash.Chunks.{Bytes, chunk_bytes, blockify_chunks}
use umash.Umash.Chunks.Grouping.{blocks_of, blockify-blocks_of, IsGroupingOf-blocks_of}
use umash.Umash.Oh.{oh_compress}
use umash.Umash.Oh.Total.{IsOhKey, AreWide, oh_compress_total}
use umash.Umash.Poly.Horner.{polynomial, halves, poly_reduce-polynomial}
use umash.Umash.Finalize.{finalize}
use umash.Umash.Finalize.Inverse.{finalize_inj}
use umash.Umash.Hash.{umash_long}
use umash.Umash.Hash.Blocks.{IsBlock-blocks_of}

pub IsKey-IsOhKey : (key : UmashKey) → IsKey key → IsOhKey key.oh
IsKey-IsOhKey key k = record { long = omega (arith, k.oh_length); words = k.oh_words }

-- How umash_long comes to its result `h`.
pub record IsLongHash (key : UmashKey) (seed : ℕ) (buf : Bytes) (secondary : Bool) (h : ℕ)
    : Type 0 where
  pub values : List ℕ
  pub acc : ℕ
  pub compressed :
      oh_compress key.oh seed (blockify_chunks (chunk_bytes buf)) secondary ≡ from_list values
  pub count : length values ≡ (length buf + 255) / 256
  pub wide : AreWide values
  pub value : acc % modulus ≡ polynomial key.poly 0 (halves values) % modulus
  pub bounded : acc < w - 8
  pub final : h ≡ finalize acc

-- For a key as generate_key makes it and an input of at least 8 bytes, umash_long returns a hash for both compressors. It
-- is the finalisation of a number below 2 ** 64 - 8 that is congruent, modulo 2 ** 61 - 1, to the
-- polynomial in the multiplier whose coefficients are the halves of the 128-bit values that the blocks of
-- the input are compressed to, one value for each 256 bytes or part of such.
pub umash_long-polynomial :
    (key : UmashKey) (seed : ℕ) (buf : Bytes) (secondary : Bool)
    → IsKey key
    → 8 ≤ length buf
    → IsBytes buf
    → (h : ℕ) × (umash_long key seed buf secondary ≡ ok h) × IsLongHash key seed buf secondary h
unfolding umash_long
umash_long-polynomial key seed buf secondary k low bytes =
    let blocks = IsBlock-blocks_of buf low bytes in
    let (vs, runs, all) =
      oh_compress_total key.oh seed (blocks_of buf) secondary (IsKey-IsOhKey key k) blocks in
    let compressed =
      ap (λ t. oh_compress key.oh seed t secondary) (blockify-blocks_of buf low) ∙ runs in
    let (acc, reduces, is) = poly_reduce-polynomial key.poly (length buf) 0 vs in
    (
      finalize acc,
      rw (le→leb _ _ low, compressed, reduces) refl,
      record {
        values = vs;
        acc = acc;
        compressed = compressed;
        count = omega (arith, all.count, (IsGroupingOf-blocks_of buf low).count);
        wide = all.wide;
        value = is.value;
        bounded = is.bounded (omega arith);
        final = refl;
      },
    )

-- The polynomial hash of an input.
pub IsPolynomialHash : UmashKey → ℕ → Bytes → Bool → ℕ → Type 0
IsPolynomialHash key seed buf secondary p =
    (vs : List ℕ) × (oh_compress key.oh seed (blockify_chunks (chunk_bytes buf)) secondary
      ≡ from_list vs)
    × (polynomial key.poly 0 (halves vs) % modulus ≡ p)

-- Two inputs of at least 8 bytes, with any seeds, collide under umash_long only if the polynomial hashes of their compressed
-- values are the same modulo 2 ** 61 - 1: neither the reduction modulo 2 ** 64 - 8 nor the finaliser adds collisions.
pub umash_long-collision :
    (key : UmashKey) (seed seed' : ℕ) (a b : Bytes) (secondary : Bool)
    → IsKey key
    → 8 ≤ length a
    → 8 ≤ length b
    → IsBytes a
    → IsBytes b
    → umash_long key seed a secondary ≡ umash_long key seed' b secondary
    → (p : ℕ) × IsPolynomialHash key seed a secondary p × IsPolynomialHash key seed' b secondary p
unfolding IsPolynomialHash
umash_long-collision key seed seed' a b secondary k low_a low_b bytes_a bytes_b collide =
    let (h, runs_a, x) = umash_long-polynomial key seed a secondary k low_a bytes_a in
    let (g, runs_b, y) = umash_long-polynomial key seed' b secondary k low_b bytes_b in
    let same : h ≡ g = ok_inj (sym runs_a ∙ collide ∙ runs_b) in
    let accs : x.acc ≡ y.acc =
      finalize_inj x.acc y.acc (omega (arith, x.bounded)) (omega (arith, y.bounded))
        (sym x.final ∙ same ∙ y.final) in
    (
      x.acc % modulus,
      (x.values, x.compressed, sym x.value),
      (y.values, y.compressed, sym y.value ∙ ap (λ t. t % modulus) (sym accs)),
    )
