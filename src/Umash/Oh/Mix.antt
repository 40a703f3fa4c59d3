-- ===== src/Umash/Oh/Mix.antt =====
-- oh_mix_one_block: the values that it mixes, as a recursion on the key pairs and the chunks.
pub mod Bounds
use mathlib.Core.List.{append-nil, append_assoc}
use native.Mathlib.Numerals.{add-one}
use umash.Prelude.{
  ℕ, zero, suc, ◌+◌, ◌-◌, ◌*◌, ◌/◌, ◌%◌, ◌^◌, ◌≤◌, ◌<◌, bit_xor, ◌≡◌, refl, sym, ap, ap₂, ◌∙◌, Bool,
  true, false, List, [], ◌∷◌, ◌++◌, map, length, take, drop, length-append, length-take,
  length-drop, All, All-take, All-drop, ltb, if◌then◌else◌, arith,
}
use umash.Bits.{bit_xor-lt, lt_pow_mono, xor_laws, bit_xor_assoc, bit_xor-zero, zero-bit_xor}
use umash.Python.{
  Result, ok, ◌>>=◌, index, index_back, index-drop, drop-suc, index_back-append, IsBytes,
  little_endian, little_endian-lt, unpack_u64_pair, unpack_u64_pair-ok,
}
use umash.Umash.Params.{w}
use umash.Umash.Chunks.{Bytes}
use umash.Umash.Gfmul.{gfmul, ph}
use umash.Umash.Gfmul.Linear.{gfmul-lt}
use umash.Umash.Oh.{enh, Mixing, mix_loop, oh_mix_one_block}

-- Two 64-bit words: those of a chunk, or the key words of its place.
pub record Pair : Type 0 where
  pub a : ℕ
  pub b : ℕ

abbrev pub words_of : Bytes → Pair
words_of chunk = record { a = little_endian (take 8 chunk); b = little_endian (drop 8 chunk) }

unfoldable pub pairs_of : List ℕ → List Pair
pairs_of [] = []
pairs_of (a ∷ []) = []
pairs_of (a ∷ b ∷ key) = record { a = a; b = b } ∷ pairs_of key

-- PH for every chunk but the last, ENH for the last.
unfoldable pub mixed_values : List Pair → ℕ → List Pair → List ℕ
mixed_values [] tag xs = []
mixed_values (k ∷ ks) tag [] = []
mixed_values (k ∷ ks) tag (x ∷ []) = enh k.a k.b tag x.a x.b ∷ []
mixed_values (k ∷ ks) tag (x ∷ y ∷ xs) = ph k.a k.b x.a x.b ∷ mixed_values ks tag (y ∷ xs)

-- The checksum chunk: the `^` of all chunks and their key words.
unfoldable pub checksum : List Pair → List Pair → Pair
checksum [] xs = record { a = 0; b = 0 }
checksum (k ∷ ks) [] = record { a = 0; b = 0 }
checksum (k ∷ ks) (x ∷ xs) =
    let rest = checksum ks xs in
    record { a = bit_xor (bit_xor k.a x.a) rest.a; b = bit_xor (bit_xor k.b x.b) rest.b }

mixed_values_none : (ks : List Pair) (tag : ℕ) → mixed_values ks tag [] ≡ []
unfolding mixed_values
mixed_values_none [] tag = refl
mixed_values_none (k ∷ ks) tag = refl

checksum_none : (ks : List Pair) → checksum ks [] ≡ record { a = 0; b = 0 }
unfolding checksum
checksum_none [] = refl
checksum_none (k ∷ ks) = refl

-- The variables after one round, with the mixed value of its chunk.
after_round : Mixing → Pair → Pair → ℕ → Mixing
after_round s k x value = record {
  mixed = s.mixed ++ value ∷ [];
  lrc_a = bit_xor s.lrc_a (bit_xor k.a x.a);
  lrc_b = bit_xor s.lrc_b (bit_xor k.b x.b);
}

-- What the loop adds to its variables for the chunks from here on.
extend : Mixing → List ℕ → Pair → Mixing
extend s values sums = record {
  mixed = s.mixed ++ values;
  lrc_a = bit_xor s.lrc_a sums.a;
  lrc_b = bit_xor s.lrc_b sums.b;
}

extend_nothing : (s : Mixing) → extend s [] (record { a = 0; b = 0 }) ≡ s
unfolding extend
extend_nothing s = λ i. record {
  mixed = append-nil s.mixed i;
  lrc_a = bit_xor-zero s.lrc_a i;
  lrc_b = bit_xor-zero s.lrc_b i;
}

extend-after_round :
    (s : Mixing) (k x : Pair) (value : ℕ) (values : List ℕ) (sums : Pair)
    → extend (after_round s k x value) values sums
      ≡ extend s
          (value ∷ values)
          (record { a = bit_xor (bit_xor k.a x.a) sums.a; b = bit_xor (bit_xor k.b x.b) sums.b })
unfolding extend after_round
extend-after_round s k x value values sums = λ i. record {
  mixed = append_assoc s.mixed (value ∷ []) values i;
  lrc_a = bit_xor_assoc s.lrc_a (bit_xor k.a x.a) sums.a i;
  lrc_b = bit_xor_assoc s.lrc_b (bit_xor k.b x.b) sums.b i;
}

module _ (key : List ℕ) (tag count : ℕ) where
  round_value : ℕ → Pair → Pair → ℕ
  round_value i k x = if ltb i (count - 1) then ph k.a k.b x.a x.b else enh k.a k.b tag x.a x.b

  round_value-cons :
      (i : ℕ) (block : List Bytes) (rest : List ℕ) (k x : Pair)
      → i + suc (length block) ≡ count
      → round_value i k x ∷ mixed_values (pairs_of rest) tag (map words_of block)
        ≡ mixed_values (k ∷ pairs_of rest) tag (x ∷ map words_of block)
  unfolding round_value mixed_values
  round_value-cons i [] rest k x last =
      let at_end : ltb i (count - 1) ≡ false = ground arith in
      rw (at_end, mixed_values_none (pairs_of rest) tag) refl
  round_value-cons i (d ∷ block) rest k x last =
      let before_end : ltb i (count - 1) ≡ true = ground arith in rw before_end refl

  checksum_first :
      (k x : Pair) (ks xs : List Pair)
      → record {
        a = bit_xor (bit_xor k.a x.a) (checksum ks xs).a;
        b = bit_xor (bit_xor k.b x.b) (checksum ks xs).b;
      }
        ≡ checksum (k ∷ ks) (x ∷ xs)
  unfolding checksum
  checksum_first k x ks xs = refl

  mix_loop-cons :
      (i : ℕ) (c : Bytes) (block : List Bytes) (s : Mixing) (k : Pair) (rest : List ℕ)
      → drop (2 * i) key ≡ k.a ∷ k.b ∷ rest
      → length c ≡ 16
      → mix_loop key tag count i (c ∷ block) s
        ≡ mix_loop key tag count
            (i + 1)
            block
            (after_round s k (words_of c) (round_value i k (words_of c)))
  unfolding mix_loop after_round round_value
  mix_loop-cons i c block s k rest e sized =
      let second : index key (2 * i + 1) ≡ ok k.b =
        ap (index key) (add-one (2 * i))
        ∙ index-drop key (suc (2 * i)) k.b rest (drop-suc key (2 * i) k.a (k.b ∷ rest) e) in
      rw (index-drop key (2 * i) k.a (k.b ∷ rest) e, second, unpack_u64_pair-ok c sized) refl

  mix_loop-extend :
      (i : ℕ) (block : List Bytes) (s : Mixing) (rest : List ℕ)
      → drop (2 * i) key ≡ rest
      → 2 * length block ≤ length rest
      → i + length block ≡ count
      → All (λ c. length c ≡ 16) block
      → let xs = map words_of block in
        mix_loop key tag count i block s
        ≡ ok (extend s (mixed_values (pairs_of rest) tag xs) (checksum (pairs_of rest) xs))
  unfolding pairs_of
  mix_loop-extend i [] s rest e fits last sized =
      rw (mixed_values_none (pairs_of rest) tag, checksum_none (pairs_of rest), extend_nothing s)
        (unfold mix_loop in refl)
  mix_loop-extend i (c ∷ block) s [] e fits last sized = absurd (omega arith)
  mix_loop-extend i (c ∷ block) s (ka ∷ []) e fits last sized = absurd (omega arith)
  mix_loop-extend i (c ∷ block) s (ka ∷ kb ∷ rest) e fits last sized =
      let k : Pair = record { a = ka; b = kb } in
      let x = words_of c in
      let place : 2 * (i + 1) ≡ suc (suc (2 * i)) = omega arith in
      let further : drop (2 * (i + 1)) key ≡ rest =
        ap (λ n. drop n key) place
        ∙ drop-suc key (suc (2 * i)) kb rest (drop-suc key (2 * i) ka (kb ∷ rest) e) in
      mix_loop-cons i c block s k rest e sized.0
      ∙ mix_loop-extend (i + 1) block (after_round s k x (round_value i k x)) rest further
          (omega arith) (omega arith) sized.1
      ∙ ap ok (extend-after_round s k x (round_value i k x) _ _)
      ∙ ap ok (
          ap₂ (extend s) (round_value-cons i block rest k x last)
            (checksum_first k x (pairs_of rest) (map words_of block)))

abbrev pub last_pair : ℕ → ℕ → Pair → ℕ
last_pair ka kb sums = gfmul (bit_xor sums.a ka) (bit_xor sums.b kb)

module _ (key : List ℕ) (tag : ℕ) (block : List Bytes) (keys : 2 * length block ≤ length key)
    (sized : All (λ c. length c ≡ 16) block) where
  abbrev pub values : List ℕ
  values = mixed_values (pairs_of key) tag (map words_of block)

  -- Primary: the mixed values of the chunks.
  pub oh_mix_one_block-primary : oh_mix_one_block key block tag false ≡ ok values
  unfolding oh_mix_one_block extend
  oh_mix_one_block-primary =
      rw (mix_loop-extend key tag (length block) 0 block _ key refl keys (omega arith) sized) refl

  -- Secondary: those, and PH of the checksum chunk under the last two key words.
  pub oh_mix_one_block-secondary :
      (front : List ℕ) (ta tb : ℕ)
      → key ≡ front ++ ta ∷ tb ∷ []
      → oh_mix_one_block key block tag true
        ≡ ok (values ++ last_pair ta tb (checksum (pairs_of key) (map words_of block)) ∷ [])
  unfolding oh_mix_one_block extend
  oh_mix_one_block-secondary front ta tb e =
      let second_last : index_back key 2 ≡ ok ta =
        ap (λ k. index_back k 2) e ∙ index_back-append front ta (tb ∷ []) 2 refl in
      let last : index_back key 1 ≡ ok tb =
        ap (λ k. index_back k 1) (e ∙ sym (append_assoc front (ta ∷ []) (tb ∷ [])))
        ∙ index_back-append (front ++ ta ∷ []) tb [] 1 refl in
      rw
        (
          mix_loop-extend key tag (length block) 0 block _ key refl keys (omega arith) sized,
          second_last,
          last,
        )
        (simp zero-bit_xor)
