-- ===== src/Umash/Oh/Compress.antt =====
-- oh_compress_one_block and oh_compress: the formulas of OH and of its secondary OH', and that
-- neither fails on blocks of 16-byte chunks.
use mathlib.Core.List.{foldl}
use umash.Prelude.{
  ℕ, ◌+◌, ◌-◌, ◌*◌, ◌≤◌, bit_xor, ◌≡◌, refl, sym, ap, ◌∙◌, true, false, List, [], ◌∷◌, ◌++◌, map,
  length, length-append, take-append, All, arith,
}
use umash.Bits.{bit_xor_assoc, bit_xor-zero, zero-bit_xor}
use umash.Python.{ok, index_back-append}
use umash.Umash.Chunks.{Bytes}
use umash.Umash.Oh.{shuffle, shuffle_loop, oh_compress_one_block}
use umash.Umash.Oh.Shuffle.{shuffled, shuffle-shuffled}
use umash.Umash.Oh.Mix.{
  words_of, pairs_of, mixed_values, checksum, last_pair, oh_mix_one_block-primary,
  oh_mix_one_block-secondary,
}

-- v_0 ^ v_1 ^ … ^ v_(n - 1).
unfoldable pub xor_all : List ℕ → ℕ
xor_all [] = 0
xor_all (v ∷ vs) = bit_xor v (xor_all vs)

-- Each value through its shuffle: `i` values of the `n` stand before these.
unfoldable pub shuffle_all : ℕ → ℕ → List ℕ → List ℕ
shuffle_all n i [] = []
shuffle_all n i (v ∷ vs) = shuffled v (n - (i + 1)) ∷ shuffle_all n (i + 1) vs

foldl-xor_all : (vs : List ℕ) (acc : ℕ) → foldl bit_xor acc vs ≡ bit_xor acc (xor_all vs)
unfolding xor_all
foldl-xor_all [] acc = sym (bit_xor-zero acc)
foldl-xor_all (v ∷ vs) acc = foldl-xor_all vs (bit_xor acc v) ∙ bit_xor_assoc acc v (xor_all vs)

shuffle_loop-cons :
    (n i m s : ℕ) (ms : List ℕ) (acc : ℕ)
    → shuffle m (i + 1) n ≡ ok s
    → shuffle_loop n i (m ∷ ms) acc ≡ shuffle_loop n (i + 1) ms (bit_xor acc s)
unfolding shuffle_loop
shuffle_loop-cons n i m s ms acc e = rw e refl

shuffle_loop-xor_all :
    (n i : ℕ) (ms : List ℕ) (acc : ℕ)
    → i + length ms ≤ n
    → shuffle_loop n i ms acc ≡ ok (bit_xor acc (xor_all (shuffle_all n i ms)))
unfolding xor_all shuffle_all
shuffle_loop-xor_all n i [] acc h = unfold shuffle_loop in ap ok (sym (bit_xor-zero acc))
shuffle_loop-xor_all n i (m ∷ ms) acc h =
    shuffle_loop-cons n i m (shuffled m (n - (i + 1))) ms acc
      (shuffle-shuffled m (i + 1) n (omega arith))
    ∙ shuffle_loop-xor_all n (i + 1) ms (bit_xor acc (shuffled m (n - (i + 1)))) (omega arith)
    ∙ ap ok (bit_xor_assoc acc _ _)

init-length : (vs : List ℕ) (t : ℕ) → length (vs ++ t ∷ []) - 1 ≡ length vs
init-length vs t = omega (arith, length-append vs (t ∷ []))

-- OH' of the mixed values, given with the checksum value `t` apart.
unfoldable pub shuffled_sum : List ℕ → ℕ → ℕ
shuffled_sum vs t = bit_xor t (xor_all (shuffle_all (length vs) 0 vs))

module _ (key : List ℕ) (tag : ℕ) (block : List Bytes) (keys : 2 * length block ≤ length key)
    (sized : All (λ c. length c ≡ 16) block) where
  -- The primary compressor computes the `^` of the PH of every chunk but the last and of the ENH of the last
  -- one, whenever the key has two words per chunk and the chunks have 16 bytes.
  pub oh_compress_one_block-primary :
      oh_compress_one_block key block tag false
      ≡ ok (xor_all (mixed_values (pairs_of key) tag (map words_of block)))
  unfolding oh_compress_one_block
  oh_compress_one_block-primary =
      rw (oh_mix_one_block-primary key tag block keys sized, foldl-xor_all _ 0, zero-bit_xor) refl

  -- The secondary compressor adds to the PH of the checksum chunk, under the key's last two words,
  -- each of the primary's values through the shuffle of its place, under the same conditions.
  pub oh_compress_one_block-secondary :
      (front : List ℕ) (ta tb : ℕ)
      → key ≡ front ++ ta ∷ tb ∷ []
      → let xs = map words_of block in
        oh_compress_one_block key block tag true
        ≡ ok (
            shuffled_sum
              (mixed_values (pairs_of key) tag xs)
              (last_pair ta tb (checksum (pairs_of key) xs)))
  unfolding oh_compress_one_block shuffled_sum
  oh_compress_one_block-secondary front ta tb e =
      let xs = map words_of block in
      let vs = mixed_values (pairs_of key) tag xs in
      let t = last_pair ta tb (checksum (pairs_of key) xs) in
      rw
        (
          oh_mix_one_block-secondary key tag block keys sized front ta tb e,
          index_back-append vs t [] 1 refl,
          init-length vs t,
          take-append vs (t ∷ []),
        )
        (shuffle_loop-xor_all (length vs) 0 vs t (omega arith))
