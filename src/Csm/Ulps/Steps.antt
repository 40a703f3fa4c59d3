-- ===== src/Csm/Ulps/Steps.antt =====
-- next and prev of t/csm.py: they add up, undo each other, and step to the neighbour in the order of the
-- floats.
use umash.Prelude.{ℕ, suc, ◌+◌, ◌^◌, ◌<◌, ◌≡◌, ap, ◌∙◌, arith}
use umash.Python.{ok, ◌>>=◌}
use umash.Python.Integer.{pos, negsuc, ◌+ℤ◌, ◌-ℤ◌, int_laws, +ℤ-ℤ_cancel, +ℤ_assoc}
use umash.Python.Float.{Float, positive}
use umash.Csm.Ulps.{float_bits, bits_float, next, prev}
use umash.Csm.Ulps.Bits.{
  IsFloat, IsWord, negated, float_bits-positive, float_bits-negated, bits_float-pos,
  bits_float-negsuc, bits_float-float_bits, float_bits-bits_float,
}

-- One step up of a positive float, and of a negative one.
pub next-positive : (m : ℕ) → suc m < 2 ^ 63 → next (positive m) 1 ≡ ok (positive (suc m))
unfolding next
next-positive m h =
    let e : pos m +ℤ pos 1 ≡ pos (suc m) = omega int_laws in
    rw (float_bits-positive m (omega arith), e) (bits_float-pos (suc m) h)

pub next-negated_zero : next (negated 0) 1 ≡ ok (positive 0)
unfolding next
next-negated_zero =
    let e : negsuc 0 +ℤ pos 1 ≡ pos 0 = omega int_laws in
    rw (float_bits-negated 0 (omega arith), e) (bits_float-pos 0 (omega arith))

pub next-negated-suc : (m : ℕ) → suc m < 2 ^ 63 → next (negated (suc m)) 1 ≡ ok (negated m)
unfolding next
next-negated-suc m h =
    let e : negsuc (suc m) +ℤ pos 1 ≡ negsuc m = omega int_laws in
    rw (float_bits-negated (suc m) h, e) (bits_float-negsuc m (omega arith))

-- In the range of the floats, next moves by its delta in the order of the bits.
pub float_bits-next :
    (x : Float) (d : ℕ)
    → IsWord (float_bits x +ℤ pos d)
    → (y : Float) × (next x d ≡ ok y) × (float_bits y ≡ float_bits x +ℤ pos d)
unfolding next
float_bits-next x d h = float_bits-bits_float (float_bits x +ℤ pos d) h

-- Steps add up.
pub next-next :
    (x : Float) (d e : ℕ)
    → IsWord (float_bits x +ℤ pos d)
    → (next x d >>= λ y. next y e) ≡ next x (d + e)
unfolding next
next-next x d e h =
    let (y, there, back) = float_bits-next x d h in
    let both : pos d +ℤ pos e ≡ pos (d + e) = omega int_laws in
    let sum : float_bits y +ℤ pos e ≡ float_bits x +ℤ pos (d + e) =
      ap (λ i. i +ℤ pos e) back
      ∙ +ℤ_assoc (float_bits x) (pos d) (pos e)
      ∙ ap (λ i. float_bits x +ℤ i) both in
    ap (λ r. r >>= λ y. next y e) there ∙ ap bits_float sum

-- prev undoes next.
pub prev-next :
    (x : Float) (d : ℕ)
    → IsFloat x
    → IsWord (float_bits x +ℤ pos d)
    → (next x d >>= λ y. prev y d) ≡ ok x
unfolding prev
prev-next x d hx h =
    let (y, there, back) = float_bits-next x d h in
    let undone : float_bits y -ℤ pos d ≡ float_bits x =
      ap (λ i. i -ℤ pos d) back ∙ +ℤ-ℤ_cancel (float_bits x) (pos d) in
    ap (λ r. r >>= λ y. prev y d) there ∙ ap bits_float undone ∙ bits_float-float_bits x hx
