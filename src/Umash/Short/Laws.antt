-- ===== src/Umash/Short/Laws.antt =====
-- umash_short on inputs of at most 8 bytes: it returns, it never collides inputs of one length, and
-- the key word that the length selects decides the hash.
use umash.Prelude.{
  ℕ, ◌+◌, ◌-◌, ◌%◌, ◌≤◌, ◌<◌, ◌≡◌, ◌↔◌, refl, sym, ap, ap₂, ◌∙◌, List, length, le→leb, arith,
}
use umash.Python.{IsBytes, ok_inj, ok, index, index-ok}
use umash.Umash.Params.{w}
use umash.Umash.Short.{vec_to_u64, mix_short, umash_short}
use umash.Umash.Short.Decode.{decode, vec_to_u64-decode}
use umash.Umash.Short.Mixer.{
  mix_short-lt, unmix_short, unmix_short-mix_short, noise_between, noise_between-lt,
  mix_short-noise_between, noise_between-mix_short,
}

module _ (key : List ℕ) (seed : ℕ) (buf : List ℕ) (short : length buf ≤ 8) where
  umash_short-eq :
      {word v : ℕ}
      → index key (length buf) ≡ ok word
      → vec_to_u64 buf ≡ ok v
      → umash_short key seed buf ≡ ok (mix_short ((seed + word) % w) v)
  unfolding umash_short
  umash_short-eq found read = rw (le→leb _ _ short, found, read) refl

-- With more than 8 key words umash_short returns a 64-bit hash for every input of at most 8 bytes.
pub umash_short-ok :
    (key : List ℕ) (seed : ℕ) (buf : List ℕ)
    → 8 < length key
    → length buf ≤ 8
    → IsBytes buf
    → (h : ℕ) × (umash_short key seed buf ≡ ok h) × (h < w)
umash_short-ok key seed buf long short bytes =
    let (word, found) = index-ok key (length buf) (omega arith) in
    let (v, read, _) = vec_to_u64-decode buf short bytes in
    (_, umash_short-eq key seed buf short found read, mix_short-lt ((seed + word) % w) v)

-- Two different inputs of the same length never have the same umash_short, for any key and seed.
pub umash_short-inj :
    (key : List ℕ) (seed : ℕ) (a b : List ℕ)
    → 8 < length key
    → length a ≤ 8
    → length a ≡ length b
    → IsBytes a
    → IsBytes b
    → umash_short key seed a ≡ umash_short key seed b
    → a ≡ b
umash_short-inj key seed a b long short same bytes_a bytes_b collide =
    let (word, found) = index-ok key (length a) (omega arith) in
    let noise = (seed + word) % w in
    let (u, read_a, (u_small, u_back)) = vec_to_u64-decode a short bytes_a in
    let (v, read_b, (v_small, v_back)) = vec_to_u64-decode b (omega arith) bytes_b in
    let hash_a = umash_short-eq key seed a short found read_a in
    let hash_b =
      umash_short-eq key seed b (omega arith) (ap (index key) (sym same) ∙ found) read_b in
    let mixed = ok_inj (sym hash_a ∙ collide ∙ hash_b) in
    let words : u ≡ v =
      sym (unmix_short-mix_short noise u u_small (omega arith))
      ∙ ap (unmix_short noise) mixed
      ∙ unmix_short-mix_short noise v v_small (omega arith) in
    sym u_back ∙ ap₂ decode same words ∙ v_back

word_for : ℕ → ℕ → ℕ
word_for seed noise = (noise + w - seed % w) % w

word_for_iff :
    (seed noise word : ℕ)
    → noise < w
    → word < w
    → ((seed + word) % w ≡ noise) ↔ (word ≡ word_for seed noise)
unfolding word_for
word_for_iff seed noise word small fits = (λ e. omega arith, λ e. omega arith)

-- For an input of at most 8 bytes and a 64-bit hash `y`, exactly one value of the key word that
-- the input's length selects gives that hash: over a uniform key word the hash is uniform.
pub umash_short-uniform :
    (seed : ℕ) (buf : List ℕ) (y : ℕ)
    → length buf ≤ 8
    → IsBytes buf
    → y < w
    → (word : ℕ) × (word < w)
      × ((key : List ℕ) (other : ℕ)
          → index key (length buf) ≡ ok other
          → other < w
          → (umash_short key seed buf ≡ ok y) ↔ (other ≡ word))
umash_short-uniform seed buf y short bytes small =
    let (v, read, (v_small, _)) = vec_to_u64-decode buf short bytes in
    let noise = noise_between v y in
    let noise-lt = noise_between-lt v y in
    (
      word_for seed noise,
      unfold word_for in omega arith,
      λ key other found fits.
          let hash = umash_short-eq key seed buf short found read in
          let at_word = word_for_iff seed noise other noise-lt fits in
          (
            λ e. at_word.0 (
                sym (noise_between-mix_short ((seed + other) % w) v (omega arith))
                ∙ ap (noise_between v) (ok_inj (sym hash ∙ e))),
            λ e.
                hash
                ∙ ap ok (ap (λ t. mix_short t v) (at_word.1 e) ∙ mix_short-noise_between v y small),
          ),
    )
