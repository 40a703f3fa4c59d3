-- ===== src/Csm/Ulps/Bits.antt =====
-- float_bits and bits_float of t/csm.py are inverse to each other.
use native.Mathlib.Nat.{mod-eq_of_lt}
use umash.Prelude.{
  ℕ, ◌-◌, ◌%◌, ◌^◌, ◌≤◌, ◌<◌, ◌≡◌, refl, sym, ap, ◌∙◌, ◌↔◌, Bool, true, false, lt→ltb, arith,
}
use umash.Python.{ok, ok_inj}
use umash.Python.Integer.{ℤ, pos, negsuc, mod_ℤ, pos_part, neg_part}
use umash.Python.Float.{Float, positive}
use umash.Csm.Ulps.{unpack_q, pack_q, float_bits, bits_float}

-- 64 bits hold the float.
unfoldable pub IsFloat : Float → Type 0
IsFloat x = x.magnitude < 2 ^ 63

-- What 64 bits in two's complement hold.
unfoldable pub IsWord : ℤ → Type 0
IsWord i = (pos_part i < 2 ^ 63) × (neg_part i ≤ 2 ^ 63)

abbrev pub negated : ℕ → Float
negated m = record { negative = true; magnitude = m }

pub float_bits-positive : (m : ℕ) → m < 2 ^ 63 → float_bits (positive m) ≡ pos m
unfolding float_bits unpack_q mod_ℤ
float_bits-positive m h = rw (mod-eq_of_lt h) refl

pub float_bits-negated : (m : ℕ) → m < 2 ^ 63 → float_bits (negated m) ≡ negsuc m
unfolding float_bits unpack_q mod_ℤ
float_bits-negated m h = ap negsuc (omega arith)

pub bits_float-pos : (n : ℕ) → n < 2 ^ 63 → bits_float (pos n) ≡ ok (positive n)
unfolding bits_float pack_q
bits_float-pos n h = rw (lt→ltb n (2 ^ 63) h) refl

pub bits_float-negsuc : (n : ℕ) → n < 2 ^ 63 → bits_float (negsuc n) ≡ ok (negated n)
unfolding bits_float pack_q mod_ℤ
bits_float-negsuc n h =
    let e : 2 ^ 63 - 1 - n % 2 ^ 63 ≡ 2 ^ 63 - 1 - n = omega arith in
    let back : 2 ^ 63 - 1 - (2 ^ 63 - 1 - n) ≡ n = omega arith in
    rw (e, lt→ltb (2 ^ 63 - 1 - n) (2 ^ 63) (omega arith), back) refl

-- The integer of a sign and a magnitude.
abbrev pub signed : Bool → ℕ → ℤ
signed false m = pos m
signed true m = negsuc m

float_bits-signed :
    (negative : Bool) (m : ℕ)
    → m < 2 ^ 63
    → float_bits (record { negative = negative; magnitude = m }) ≡ signed negative m
float_bits-signed false m h = float_bits-positive m h
float_bits-signed true m h = float_bits-negated m h

bits_float-signed :
    (negative : Bool) (m : ℕ)
    → m < 2 ^ 63
    → bits_float (signed negative m) ≡ ok (record { negative = negative; magnitude = m })
bits_float-signed false m h = bits_float-pos m h
bits_float-signed true m h = bits_float-negsuc m h

pub bits_float-float_bits : (x : Float) → IsFloat x → bits_float (float_bits x) ≡ ok x
unfolding IsFloat
bits_float-float_bits x h =
    ap bits_float (float_bits-signed x.negative x.magnitude h)
    ∙ bits_float-signed x.negative x.magnitude h

-- Every 64-bit integer is the bits of a float.
pub float_bits-bits_float :
    (i : ℤ) → IsWord i → (x : Float) × (bits_float i ≡ ok x) × (float_bits x ≡ i)
unfolding IsWord
float_bits-bits_float (pos n) h = (positive n, bits_float-pos n (h.0), float_bits-positive n (h.0))
float_bits-bits_float (negsuc n) h =
    (negated n, bits_float-negsuc n (omega (arith, h.1)), float_bits-negated n (omega (arith, h.1)))

-- float_bits and bits_float are a bijection of the 64-bit floats and the 64-bit integers.
pub float_bits_bijective :
    (x : Float) (i : ℤ) → IsFloat x → IsWord i → ((float_bits x ≡ i) ↔ (bits_float i ≡ ok x))
float_bits_bijective x i hx hi =
    let (y, there, back) = float_bits-bits_float i hi in
    (
      (λ e. ap bits_float (sym e) ∙ bits_float-float_bits x hx),
      λ e. ap float_bits (ok_inj (sym e ∙ there)) ∙ back,
    )
