-- ===== src/Umash/Oh/Tag.antt =====
-- The tag of a block separates blocks of the same chunks that stand for different counts of bytes.
use umash.Prelude.{
  ℕ, ◌+◌, ◌-◌, ◌*◌, ◌%◌, ◌≤◌, ◌<◌, bit_xor, ◌≡◌, refl, sym, ap, ◌∙◌, Bool, true, false, List, [],
  ◌∷◌, map, length, length-map, arith,
}
use umash.Bits.{
  bit_xor_comm, bit_xor-zero, bit_xor_cancel_right, bit_xor-lt, bit_xor_assoc, bit_xor_inj,
  mod-bit_xor,
}
use umash.Python.{ok_inj}
use umash.Umash.Params.{w}
use umash.Umash.Chunks.{Bytes}
use umash.Umash.Gfmul.{ph}
use umash.Umash.Oh.{enh, block_tag, oh_compress_one_block}
use umash.Umash.Oh.Shuffle.{shuffled, shuffled-zero}
use umash.Umash.Oh.Mix.{Pair, words_of, pairs_of, mixed_values, checksum, last_pair}
use umash.Umash.Oh.Mix.Bounds.{length-mixed_values, length-pairs_of}
use umash.Umash.Oh.Total.{IsOhKey, IsBlock, ends_in_pair}
use umash.Umash.Oh.Compress.{
  xor_all, shuffle_all, shuffled_sum, oh_compress_one_block-primary,
  oh_compress_one_block-secondary,
}

-- x ^= (x % W) * W undoes itself.
fold_low : ℕ → ℕ
fold_low x = bit_xor x (x % w * w)

fold_low-eq : (x : ℕ) → fold_low x ≡ bit_xor x (x % w * w)
unfolding fold_low
fold_low-eq x = refl

fold_low-low : (x : ℕ) → fold_low x % w ≡ x % w
unfolding fold_low
fold_low-low x =
    let shifted : x % w * w % w ≡ 0 = omega arith in
    mod-bit_xor x (x % w * w) 64 ∙ rw shifted (bit_xor-zero (x % w))

fold_low-fold_low : (x : ℕ) → fold_low (fold_low x) ≡ x
fold_low-fold_low x =
    fold_low-eq (fold_low x)
    ∙ rw (fold_low-low x, fold_low-eq x) (bit_xor_cancel_right x (x % w * w))

fold_low_inj : (x y : ℕ) → fold_low x ≡ fold_low y → x ≡ y
fold_low_inj x y e = sym (fold_low-fold_low x) ∙ ap fold_low e ∙ fold_low-fold_low y

enh_tag_inj :
    (ka kb xa xb s t : ℕ) → s < w * w → t < w * w → enh ka kb s xa xb ≡ enh ka kb t xa xb → s ≡ t
unfolding enh
enh_tag_inj ka kb xa xb s t hs ht e =
    let product = (xa + ka) % w * ((xb + kb) % w) in
    let tagged : (product + s) % (w * w) ≡ (product + t) % (w * w) =
      fold_low_inj _ _
        (fold_low-eq ((product + s) % (w * w)) ∙ e ∙ sym (fold_low-eq ((product + t) % (w * w)))) in
    omega (arith, tagged)

-- A number that depends on the tag by one ENH value alone.
record IsTagged (f : ℕ → ℕ) : Type 0 where
  others : ℕ
  key : Pair
  chunk : Pair
  value : (tag : ℕ) → f tag ≡ bit_xor others (enh key.a key.b tag chunk.a chunk.b)

IsTagged-inj : (f : ℕ → ℕ) (s t : ℕ) → IsTagged f → s < w * w → t < w * w → f s ≡ f t → s ≡ t
IsTagged-inj f s t h hs ht e =
    enh_tag_inj h.key.a h.key.b h.chunk.a h.chunk.b s t hs ht
      (bit_xor_inj h.others _ _ (sym (h.value s) ∙ e ∙ h.value t))

IsTagged-bit_xor : (f : ℕ → ℕ) (v : ℕ) → IsTagged f → IsTagged (λ tag. bit_xor v (f tag))
IsTagged-bit_xor f v h = record {
  others = bit_xor v h.others;
  key = h.key;
  chunk = h.chunk;
  value = λ tag. ap (bit_xor v) (h.value tag) ∙ sym (bit_xor_assoc v h.others _);
}

IsTagged-xor_all :
    (ks xs : List Pair)
    → 1 ≤ length xs
    → length xs ≤ length ks
    → IsTagged (λ tag. xor_all (mixed_values ks tag xs))
unfolding xor_all mixed_values
IsTagged-xor_all ks [] some h = absurd (omega arith)
IsTagged-xor_all [] (x ∷ xs) some h = absurd (omega arith)
IsTagged-xor_all (k ∷ ks) (x ∷ []) some h = record {
  others = 0;
  key = k;
  chunk = x;
  value = λ tag. bit_xor_comm (enh k.a k.b tag x.a x.b) 0;
}
IsTagged-xor_all (k ∷ ks) (x ∷ y ∷ xs) some h =
    IsTagged-bit_xor (λ tag. xor_all (mixed_values ks tag (y ∷ xs))) (ph k.a k.b x.a x.b)
      (IsTagged-xor_all ks (y ∷ xs) (omega arith) (omega arith))

-- The last value is the one that the shuffles leave alone.
unshuffled : (n i v : ℕ) → i + 1 ≡ n → bit_xor (shuffled v (n - (i + 1))) 0 ≡ bit_xor 0 v
unshuffled n i v last =
    let none_left : n - (i + 1) ≡ 0 = omega arith in
    rw (none_left, shuffled-zero v) (bit_xor_comm v 0)

IsTagged-shuffle_all :
    (n i : ℕ) (ks xs : List Pair)
    → 1 ≤ length xs
    → length xs ≤ length ks
    → i + length xs ≡ n
    → IsTagged (λ tag. xor_all (shuffle_all n i (mixed_values ks tag xs)))
unfolding xor_all shuffle_all mixed_values
IsTagged-shuffle_all n i ks [] some h last = absurd (omega arith)
IsTagged-shuffle_all n i [] (x ∷ xs) some h last = absurd (omega arith)
IsTagged-shuffle_all n i (k ∷ ks) (x ∷ []) some h last = record {
  others = 0;
  key = k;
  chunk = x;
  value = λ tag. unshuffled n i (enh k.a k.b tag x.a x.b) (omega arith);
}
IsTagged-shuffle_all n i (k ∷ ks) (x ∷ y ∷ xs) some h last =
    IsTagged-bit_xor (λ tag. xor_all (shuffle_all n (i + 1) (mixed_values ks tag (y ∷ xs))))
      (shuffled (ph k.a k.b x.a x.b) (n - (i + 1)))
      (IsTagged-shuffle_all n (i + 1) ks (y ∷ xs) (omega arith) (omega arith) (omega arith))

shuffled_sum_tag :
    (ks xs : List Pair)
    → 1 ≤ length xs
    → length xs ≤ length ks
    → (v : ℕ) → IsTagged (λ tag. shuffled_sum (mixed_values ks tag xs) v)
unfolding shuffled_sum
shuffled_sum_tag ks xs some h v =
    let shuffles = IsTagged-shuffle_all (length xs) 0 ks xs some h (omega arith) in
    let all =
      IsTagged-bit_xor (λ tag. xor_all (shuffle_all (length xs) 0 (mixed_values ks tag xs))) v
        shuffles in
    record {
      others = all.others;
      key = all.key;
      chunk = all.chunk;
      value = λ tag. rw (length-mixed_values ks tag xs h) (all.value tag);
    }

module _ (key : List ℕ) (block : List Bytes) (s t : ℕ) (k : IsOhKey key) (b : IsBlock block)
    (some : 1 ≤ length block) (hs : s < w * w) (ht : t < w * w) where
  xs : List Pair
  xs = map words_of block

  enough_keys : 2 * length block ≤ length key
  enough_keys = omega (arith, k.long, b.room)

  some_chunks : 1 ≤ length xs
  unfolding xs
  some_chunks = omega (arith, length-map words_of block)

  enough_pairs : length xs ≤ length (pairs_of key)
  unfolding xs
  enough_pairs = omega (arith, length-map words_of block, length-pairs_of key, k.long, b.room)

  -- Blocks of the same chunks collide, under either compressor, only if their tags are the same.
  tag_inj :
      (secondary : Bool)
      → oh_compress_one_block key block s secondary ≡ oh_compress_one_block key block t secondary
      → s ≡ t
  unfolding shuffled_sum xs
  tag_inj false e =
      IsTagged-inj (λ tag. xor_all (mixed_values (pairs_of key) tag xs)) s t
        (IsTagged-xor_all (pairs_of key) xs some_chunks enough_pairs) hs ht
        (ok_inj (
          sym (oh_compress_one_block-primary key s block enough_keys b.sized)
          ∙ e
          ∙ oh_compress_one_block-primary key t block enough_keys b.sized))
  tag_inj true e =
      let p = ends_in_pair key (omega (arith, k.long)) k.words in
      let sums =
        shuffled_sum_tag (pairs_of key) xs some_chunks enough_pairs
          (last_pair p.ta p.tb (checksum (pairs_of key) xs)) in
      IsTagged-inj _ s t sums hs ht (
        ok_inj (
          sym (
            oh_compress_one_block-secondary key s block enough_keys b.sized p.front p.ta p.tb
              p.split)
          ∙ e
          ∙ oh_compress_one_block-secondary key t block enough_keys b.sized p.front p.ta p.tb
              p.split))

block_tag-lt : (seed size : ℕ) → seed < w → block_tag seed size < w * w
unfolding block_tag
block_tag-lt seed size small =
    let mixed = bit_xor-lt seed (size % 256) 64 small (omega arith) in omega (arith, mixed)

block_tag_inj : (seed m n : ℕ) → block_tag seed m ≡ block_tag seed n → m % 256 ≡ n % 256
unfolding block_tag
block_tag_inj seed m n e = bit_xor_inj seed (m % 256) (n % 256) (omega (arith, e))

-- Under one seed, a key of at least 32 words, and either compressor, a block of 1 to 16 chunks of
-- 16 bytes never collides with a block of the same chunks whose size differs modulo 256.
pub oh_compress_one_block-size :
    (key : List ℕ) (seed : ℕ) (block : List Bytes) (m n : ℕ) (secondary : Bool)
    → IsOhKey key
    → IsBlock block
    → 1 ≤ length block
    → seed < w
    → oh_compress_one_block key block (block_tag seed m) secondary
      ≡ oh_compress_one_block key block (block_tag seed n) secondary
    → m % 256 ≡ n % 256
oh_compress_one_block-size key seed block m n secondary k b some small e = block_tag_inj seed m n (
    tag_inj key block (block_tag seed m) (block_tag seed n) k b some (block_tag-lt seed m small)
      (block_tag-lt seed n small) secondary e)
