-- ===== src/Umash/Oh/Shuffle.antt =====
-- The shuffles of the secondary compressor: linear over `^`, and with the identity added, injective.
use umash.Prelude.{
  ℕ, zero, suc, ◌+◌, ◌-◌, ◌*◌, ◌/◌, ◌%◌, ◌^◌, ◌≤◌, ◌<◌, bit_xor, ◌≡◌, refl, sym, ap, ap₂, ◌∙◌, ltb,
  ◌==◌, false, if◌then◌else◌, arith,
}
use umash.Bits.{
  bit, bit_ext, bit-xor, bit-shl, bit-shr, bit-mod, lt_of_bits, bit-fields, xor_laws, bit_xor-lt,
  bit-zero, eq_of_bit_xor-zero,
}
use umash.Python.{ok, ok_inj}
use umash.Umash.Params.{w}
use umash.Umash.Oh.{parallel_shift, shuffle}

bit_lane :
    (a s j : ℕ)
    → bit (a * 2 ^ s % w) j ≡ (if ltb j 64 then if ltb j s then 0 else bit a (j - s) else 0)
bit_lane a s j = ground (arith, bit-mod (a * 2 ^ s) 64 j, bit-shl a s j)

high_index :
    (x s j : ℕ)
    → ltb j 64 ≡ false
    → ltb (j - 64) s ≡ false
    → bit x (j - 64 - s + 64) ≡ bit x (j - s)
high_index x s j high far = let same : j - 64 - s + 64 ≡ j - s = ground arith in ap (bit x) same

-- A digit of a shifted number stays in its 64-bit half.
bit-parallel_shift :
    (x s j : ℕ)
    → bit (parallel_shift x s) j ≡ (
        if ltb j 64
        then if ltb j s then 0 else bit x (j - s)
        else if ltb j 128
        then if ltb (j - 64) s then 0 else bit x (j - s)
        else 0)
unfolding parallel_shift
bit-parallel_shift x s j =
    let lo = x % w * 2 ^ s % w in
    let hi = x / w * 2 ^ s % w in
    let order : lo + w * hi ≡ hi * 2 ^ 64 + lo = omega arith in
    ap (λ t. bit t j) order
    ∙ rw (bit-fields 64 hi lo j (omega arith)) (
        ground (
          arith,
          bit_lane (x % w) s j,
          bit-mod x 64 (j - s),
          bit_lane (x / w) s (j - 64),
          bit-shr x 64 (j - 64 - s),
          high_index x s j,
        ))

parallel_shift-lt : (x s : ℕ) → parallel_shift x s < w * w
parallel_shift-lt x s = lt_of_bits _ 128 (λ j h. bit-parallel_shift x s j ∙ ground arith)

parallel_shift-bit_xor :
    (a b s : ℕ) → parallel_shift (bit_xor a b) s ≡ bit_xor (parallel_shift a s) (parallel_shift b s)
parallel_shift-bit_xor a b s = bit_ext _ _ λ j. ground (
  arith,
  bit-parallel_shift (bit_xor a b) s j,
  bit-xor a b (j - s),
  bit-xor (parallel_shift a s) (parallel_shift b s) j,
  bit-parallel_shift a s j,
  bit-parallel_shift b s j,
)

-- What the branches of shuffle compute, by the shift count n - i.
pub shuffled : ℕ → ℕ → ℕ
shuffled x zero = x
shuffled x (suc zero) = parallel_shift x 1
shuffled x (suc (suc k)) = bit_xor (parallel_shift x (suc (suc k))) (parallel_shift x 1)

pub shuffled-zero : (x : ℕ) → shuffled x 0 ≡ x
unfolding shuffled
shuffled-zero x = refl

shuffle_by_shift : (x i n shift : ℕ) → i ≤ n → n - i ≡ shift → shuffle x i n ≡ ok (shuffled x shift)
unfolding shuffle shuffled
shuffle_by_shift x i n zero h e = let enough : ltb n i ≡ false = ground arith in rw (enough, e) refl
shuffle_by_shift x i n (suc zero) h e =
    let enough : ltb n i ≡ false = ground arith in rw (enough, e) refl
shuffle_by_shift x i n (suc (suc k)) h e =
    let enough : ltb n i ≡ false = ground arith in
    let not_zero : (suc (suc k) == 0) ≡ false = ground arith in
    let not_one : (suc (suc k) == 1) ≡ false = ground arith in
    rw (enough, e, not_zero, not_one) refl

pub shuffle-shuffled : (x i n : ℕ) → i ≤ n → shuffle x i n ≡ ok (shuffled x (n - i))
shuffle-shuffled x i n h = shuffle_by_shift x i n (n - i) h refl

pub shuffled-bit_xor :
    (a b shift : ℕ) → shuffled (bit_xor a b) shift ≡ bit_xor (shuffled a shift) (shuffled b shift)
unfolding shuffled
shuffled-bit_xor a b zero = refl
shuffled-bit_xor a b (suc zero) = parallel_shift-bit_xor a b 1
shuffled-bit_xor a b (suc (suc k)) =
    rw (parallel_shift-bit_xor a b (suc (suc k)), parallel_shift-bit_xor a b 1) (simp xor_laws)

pub shuffled-lt : (x shift : ℕ) → x < w * w → shuffled x shift < w * w
unfolding shuffled
shuffled-lt x zero small = small
shuffled-lt x (suc zero) small = parallel_shift-lt x 1
shuffled-lt x (suc (suc k)) small =
    bit_xor-lt _ _ 128 (parallel_shift-lt x (suc (suc k))) (parallel_shift-lt x 1)

-- Each digit of a number that a shuffle does not change is a sum of lower ones.
fixed_bit : (x k j : ℕ) → x ≡ shuffled x (suc k) → ((i : ℕ) → i < j → bit x i ≡ 0) → bit x j ≡ 0
unfolding shuffled
fixed_bit x zero j fixed below =
    ground (arith, ap (λ t. bit t j) fixed, bit-parallel_shift x 1 j, below (j - 1))
fixed_bit x (suc k) j fixed below =
    let s = suc (suc k) in
    ground (
      arith,
      ap (λ t. bit t j) fixed,
      bit-xor (parallel_shift x s) (parallel_shift x 1) j,
      bit-parallel_shift x s j,
      bit-parallel_shift x 1 j,
      below (j - s),
      below (j - 1),
    )

fixed_bits : (x k : ℕ) → x ≡ shuffled x (suc k) → (n j : ℕ) → j < n → bit x j ≡ 0
fixed_bits x k fixed zero j h = absurd (omega arith)
fixed_bits x k fixed (suc n) j h =
    fixed_bit x k j fixed (λ i below. fixed_bits x k fixed n i (omega arith))

fixed_zero : (x k : ℕ) → x ≡ shuffled x (suc k) → x ≡ 0
fixed_zero x k fixed =
    bit_ext x 0 (λ j. fixed_bits x k fixed (suc j) j (omega arith) ∙ sym (bit-zero j))

swap_sides : (x y s t : ℕ) → bit_xor x s ≡ bit_xor y t → bit_xor x y ≡ bit_xor s t
swap_sides x y s t e = bit_ext _ _ λ j.
    omega (arith, bit-xor x y j, bit-xor s t j, bit-xor x s j, bit-xor y t j, ap (λ u. bit u j) e)

-- x ^ s(x) determines x, for each shuffle s that is not the identity: for 0 < i < n, different
-- values have different sums with their shuffles.
pub shuffle_invertible :
    (x y i n s t : ℕ)
    → i < n
    → shuffle x i n ≡ ok s
    → shuffle y i n ≡ ok t
    → bit_xor x s ≡ bit_xor y t
    → x ≡ y
shuffle_invertible x y i n s t high hs ht e =
    let shift = n - i - 1 in
    let count : n - i ≡ suc shift = omega arith in
    let s_eq : shuffled x (suc shift) ≡ s =
      ok_inj (sym (shuffle_by_shift x i n (suc shift) (omega arith) count) ∙ hs) in
    let t_eq : shuffled y (suc shift) ≡ t =
      ok_inj (sym (shuffle_by_shift y i n (suc shift) (omega arith) count) ∙ ht) in
    eq_of_bit_xor-zero x y (
      fixed_zero (bit_xor x y) shift (
        swap_sides x y s t e
        ∙ ap₂ bit_xor (sym s_eq) (sym t_eq)
        ∙ sym (shuffled-bit_xor x y (suc shift))))
