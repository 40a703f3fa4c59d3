-- ===== src/Umash/Params.antt =====
-- Constants and keys of umash_reference.py: W, CHUNK_SIZE, BLOCK_SIZE, TWISTING_COUNT,
-- SHORT_KEY_SHIFT, UmashKey, is_acceptable_multiplier and generate_key.
pub mod Keygen
pub mod Pigeonhole
mod Tests
use umash.Prelude.{
  ℕ, zero, suc, ◌+◌, ◌-◌, ◌*◌, ◌^◌, ◌≤◌, ◌<◌, ◌≡◌, Bool, true, false, ◌&&◌, ◌||◌, Option, none,
  some, List, [], ◌∷◌, ◌++◌, length, All, and_then, ltb, ◌==◌, if◌then◌else◌,
}

-- W
abbrev pub w : ℕ
w = 2 ^ 64

abbrev pub chunk_size : ℕ
chunk_size = 16

abbrev pub block_size : ℕ
block_size = 16

abbrev pub twisting_count : ℕ
twisting_count = 2

abbrev pub short_key_shift : ℕ
short_key_shift = 4

-- 2 ** 61 - 1
abbrev pub modulus : ℕ
modulus = 2 ^ 61 - 1

pub record UmashKey : Type 0 where
  pub poly : ℕ
  pub oh : List ℕ

pub is_acceptable_multiplier : ℕ → Bool
is_acceptable_multiplier m = ltb 1 m && ltb m modulus

-- `u64 in oh`
pub contains : ℕ → List ℕ → Bool
contains u [] = false
contains u (v ∷ vs) = u == v || contains u vs

-- Every word is new with respect to those before it, in the order of the list.
abbrev pub Distinct : List ℕ → Type 0
Distinct [] = Unit
Distinct (v ∷ vs) = (contains v vs ≡ false) × Distinct vs

-- What generate_key promises of a key.
pub record IsKey (key : UmashKey) : Type 0 where
  pub poly_lower : 1 < key.poly
  pub poly_upper : key.poly < modulus
  pub oh_length : length key.oh ≡ 2 * block_size + twisting_count
  pub oh_words : All (λ u. u < w) key.oh

-- The random source: `random.getrandbits(k)` at its i-th call, for any bit count.
pub record Random : Type 0 where
  pub getrandbits : ℕ → ℕ → ℕ
  pub getrandbits-lt : (k i : ℕ) → getrandbits k i < 2 ^ k

module _ (random : Random) where
  -- while not is_acceptable_multiplier(poly), from the test on; `calls` counts the calls so far,
  -- and `none` means that the fuel ran out.
  pub poly_loop : ℕ → ℕ → ℕ → Option (ℕ × ℕ)
  poly_loop zero poly calls = none
  poly_loop (suc fuel) poly calls =
      let again = poly_loop fuel (random.getrandbits 61 calls) (calls + 1) in
      if is_acceptable_multiplier poly then some (poly, calls) else again

  -- while u64 is None or u64 in oh; a draw, then the test.
  pub word_loop : ℕ → List ℕ → ℕ → Option (ℕ × ℕ)
  word_loop zero oh calls = none
  word_loop (suc fuel) oh calls =
      let u64 = random.getrandbits 64 calls in
      let again = word_loop fuel oh (calls + 1) in
      if contains u64 oh then again else some (u64, calls + 1)

  -- for _ in range(count), with `oh` so far.
  pub oh_loop : ℕ → ℕ → List ℕ → ℕ → Option (List ℕ)
  oh_loop fuel zero oh calls = some oh
  oh_loop fuel (suc count) oh calls =
      and_then (word_loop fuel oh calls) (λ r. oh_loop fuel count (oh ++ r.0 ∷ []) r.1)

  -- The fuel bounds the rounds of each `while`.
  pub generate_key : ℕ → Option UmashKey
  generate_key fuel = and_then (poly_loop fuel 0 0) λ p.
      and_then (oh_loop fuel (2 * block_size + twisting_count) [] p.1)
        λ oh. some (record { poly = p.0; oh = oh })
