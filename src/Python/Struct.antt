-- ===== src/Python/Struct.antt =====
-- `struct.unpack` for the little-endian formats in use, on a list of bytes.
use native.Mathlib.Nat.{pow-suc}
use umash.Prelude.{
  ℕ, ◌+◌, ◌*◌, ◌^◌, ◌<◌, ◌≡◌, refl, List, [], ◌∷◌, length, take, drop, All, ◌==◌, if◌then◌else◌,
  arith,
}
use umash.Python.Exceptions.{Result, ok, raise, struct_error}

-- The number whose base-256 digits are the bytes, the lowest first.
unfoldable pub little_endian : List ℕ → ℕ
little_endian [] = 0
little_endian (b ∷ bs) = b + 256 * little_endian bs

-- struct.unpack("<H", buf)[0]
unfoldable pub unpack_u16 : List ℕ → Result ℕ
unfolding little_endian
unpack_u16 (a ∷ b ∷ []) = ok (little_endian (a ∷ b ∷ []))
unpack_u16 _ = raise struct_error

-- struct.unpack("<I", buf)[0]
unfoldable pub unpack_u32 : List ℕ → Result ℕ
unfolding little_endian
unpack_u32 (a ∷ b ∷ c ∷ d ∷ []) = ok (little_endian (a ∷ b ∷ c ∷ d ∷ []))
unpack_u32 _ = raise struct_error

-- struct.unpack("<QQ", buf)
unfoldable pub unpack_u64_pair : List ℕ → Result (ℕ × ℕ)
unpack_u64_pair buf =
    if length buf == 16
    then ok (little_endian (take 8 buf), little_endian (drop 8 buf))
    else raise struct_error

pub unpack_u64_pair-ok :
    (buf : List ℕ)
    → length buf ≡ 16
    → unpack_u64_pair buf ≡ ok (little_endian (take 8 buf), little_endian (drop 8 buf))
unfolding unpack_u64_pair
unpack_u64_pair-ok buf h = rw h refl

pub little_endian-lt : (bs : List ℕ) → All (λ b. b < 256) bs → little_endian bs < 256 ^ length bs
unfolding little_endian
little_endian-lt [] h = omega arith
little_endian-lt (b ∷ bs) h = rw pow-suc (omega (arith, little_endian-lt bs h.1, h.0))
