-- ===== src/Umash/Short/Decode.antt =====
-- vec_to_u64 loses nothing: the bytes can be read back from the word and the length.
use umash.Prelude.{
  ℕ, zero, suc, ◌+◌, ◌-◌, ◌/◌, ◌%◌, ◌^◌, ◌≤◌, ◌<◌, ◌≡◌, refl, ap, ◌∙◌, List, [], ◌∷◌, ◌++◌, length,
  drop, arith,
}
use umash.Bits.{bit_or-fields}
use umash.Python.{IsBytes, ok, index, little_endian, unpack_u16, unpack_u32}
use umash.Umash.Params.{w}
use umash.Umash.Short.{Halves, read_long_halves, read_short_halves, combine_halves, vec_to_u64}

-- The base-256 digits of a number, the lowest first.
pub bytes_of : ℕ → ℕ → List ℕ
bytes_of zero v = []
bytes_of (suc k) v = v % 256 ∷ bytes_of k (v / 256)

-- The bytes of an input of `n` bytes, from the halves that were read from it.
pub bytes_of_halves : ℕ → Halves → List ℕ
bytes_of_halves zero h = []
bytes_of_halves (suc zero) h = h.lo ∷ []
bytes_of_halves (suc (suc zero)) h = bytes_of 2 h.hi
bytes_of_halves (suc (suc (suc zero))) h = h.lo ∷ bytes_of 2 h.hi
bytes_of_halves (suc (suc (suc (suc n)))) h = bytes_of 4 h.lo ++ drop (4 - n) (bytes_of 4 h.hi)

pub split_halves : ℕ → Halves
split_halves v = record { lo = (v + 2 ^ 32 - v / 2 ^ 32) % 2 ^ 32; hi = v / 2 ^ 32 }

-- What an input of `n` bytes must have been, from its word.
pub decode : ℕ → ℕ → List ℕ
decode n v = bytes_of_halves n (split_halves v)

split_halves-combine_halves :
    (h : Halves) → h.lo < 2 ^ 32 → h.hi < 2 ^ 32 → split_halves (combine_halves h) ≡ h
unfolding split_halves combine_halves
split_halves-combine_halves h lo_small hi_small =
    rw (bit_or-fields 32 h.hi ((h.hi + h.lo) % 2 ^ 32) (omega arith)) (ground arith)

combine_halves-lt : (h : Halves) → h.hi < 2 ^ 32 → combine_halves h < w
unfolding combine_halves
combine_halves-lt h small =
    rw (bit_or-fields 32 h.hi ((h.hi + h.lo) % 2 ^ 32) (omega arith)) (omega arith)

abbrev pub IsHalved : List ℕ → Halves → Type 0
IsHalved buf h = (h.lo < 2 ^ 32) × (h.hi < 2 ^ 32) × (bytes_of_halves (length buf) h ≡ buf)

-- Each input of at most 8 bytes is read into two 32-bit halves from which it can be read back.
abbrev pub IsDecodable : List ℕ → ℕ → Type 0
IsDecodable buf v = (v < w) × (decode (length buf) v ≡ buf)

decodable : (buf : List ℕ) (h : Halves) → IsHalved buf h → IsDecodable buf (combine_halves h)
unfolding decode
decodable buf h (lo_small, hi_small, e) = (
  combine_halves-lt h hi_small,
  ap (bytes_of_halves (length buf)) (split_halves-combine_halves h lo_small hi_small) ∙ e,
)

read_four :
    (a b c d : ℕ)
    → IsBytes (a ∷ b ∷ c ∷ d ∷ [])
    → (little_endian (a ∷ b ∷ c ∷ d ∷ []) < 2 ^ 32)
      × (bytes_of 4 (little_endian (a ∷ b ∷ c ∷ d ∷ [])) ≡ a ∷ b ∷ c ∷ d ∷ [])
unfolding little_endian bytes_of
read_four a b c d h = ground arith

read_two :
    (a b : ℕ)
    → IsBytes (a ∷ b ∷ [])
    → (little_endian (a ∷ b ∷ []) < 2 ^ 32) × (bytes_of 2 (little_endian (a ∷ b ∷ [])) ≡ a ∷ b ∷ [])
unfolding little_endian bytes_of
read_two a b h = ground arith

IsHalved_long :
    (a b c d e f g i : ℕ) (n : ℕ) (buf : List ℕ)
    → IsBytes (a ∷ b ∷ c ∷ d ∷ [])
    → IsBytes (e ∷ f ∷ g ∷ i ∷ [])
    → length buf ≡ suc (suc (suc (suc n)))
    → (a ∷ b ∷ c ∷ d ∷ []) ++ drop (4 - n) (e ∷ f ∷ g ∷ i ∷ []) ≡ buf
    → IsDecodable buf (
        combine_halves (record {
          lo = little_endian (a ∷ b ∷ c ∷ d ∷ []);
          hi = little_endian (e ∷ f ∷ g ∷ i ∷ []);
        }))
unfolding bytes_of_halves
IsHalved_long a b c d e f g i n buf first last size whole =
    let (lo_small, lo_bytes) = read_four a b c d first in
    let (hi_small, hi_bytes) = read_four e f g i last in
    decodable buf _ (lo_small, hi_small, rw (size, lo_bytes, hi_bytes) whole)

-- vec_to_u64 returns a 64-bit word for every input of at most 8 bytes, and the word and the
-- length determine the input: `decode` reads it back.
pub vec_to_u64-decode :
    (buf : List ℕ)
    → length buf ≤ 8
    → IsBytes buf
    → (v : ℕ) × (vec_to_u64 buf ≡ ok v) × IsDecodable buf v
unfolding vec_to_u64 read_long_halves read_short_halves unpack_u16 unpack_u32 index bytes_of_halves
vec_to_u64-decode [] len h = (_, refl, decodable [] _ (omega arith, omega arith, refl))
vec_to_u64-decode (a ∷ []) len h = (_, refl, decodable (a ∷ []) _ (omega arith, omega arith, refl))
vec_to_u64-decode (a ∷ b ∷ []) len h =
    let (small, bytes) = read_two a b h in
    (_, refl, decodable (a ∷ b ∷ []) _ (omega arith, small, bytes))
vec_to_u64-decode (a ∷ b ∷ c ∷ []) len h =
    let (small, bytes) = read_two b c h.1 in
    (_, refl, decodable (a ∷ b ∷ c ∷ []) _ (omega arith, small, ap (λ t. a ∷ t) bytes))
vec_to_u64-decode (a ∷ b ∷ c ∷ d ∷ []) len h =
    (_, refl, IsHalved_long a b c d a b c d 0 (a ∷ b ∷ c ∷ d ∷ []) h h refl refl)
vec_to_u64-decode (a ∷ b ∷ c ∷ d ∷ e ∷ []) len h =
    (_, refl, IsHalved_long a b c d b c d e 1 (a ∷ b ∷ c ∷ d ∷ e ∷ []) (omega arith) h.1 refl refl)
vec_to_u64-decode (a ∷ b ∷ c ∷ d ∷ e ∷ f ∷ []) len h =
    let buf = a ∷ b ∷ c ∷ d ∷ e ∷ f ∷ [] in
    (_, refl, IsHalved_long a b c d c d e f 2 buf (omega arith) (omega arith) refl refl)
vec_to_u64-decode (a ∷ b ∷ c ∷ d ∷ e ∷ f ∷ g ∷ []) len h =
    let buf = a ∷ b ∷ c ∷ d ∷ e ∷ f ∷ g ∷ [] in
    (_, refl, IsHalved_long a b c d d e f g 3 buf (omega arith) (omega arith) refl refl)
vec_to_u64-decode (a ∷ b ∷ c ∷ d ∷ e ∷ f ∷ g ∷ i ∷ []) len h =
    let buf = a ∷ b ∷ c ∷ d ∷ e ∷ f ∷ g ∷ i ∷ [] in
    (_, refl, IsHalved_long a b c d e f g i 4 buf (omega arith) (omega arith) refl refl)
vec_to_u64-decode (a ∷ b ∷ c ∷ d ∷ e ∷ f ∷ g ∷ i ∷ j ∷ buf) len h = absurd (omega arith)
