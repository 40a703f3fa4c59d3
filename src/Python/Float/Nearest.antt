-- ===== src/Python/Float/Nearest.antt =====
-- Rounding gives the nearest magnitude, is monotone, and keeps what is a magnitude's value.
use native.Mathlib.Nat.{mul-le-mul_right, mul-lt-mul_of_pos_right}
use umash.Prelude.{ℕ, suc, ◌+◌, ◌-◌, ◌*◌, ◌≤◌, ◌<◌, ◌≡◌, sym, ap, ◌∙◌, ◌⊎◌, inl, inr, arith}
use umash.Python.Float.Round.{units, round_ratio, infinite}
use umash.Python.Float.Units.{units-step, units_mono}
use umash.Python.Float.Rounded.{IsRounded, round_ratio-IsRounded}

-- How far two numbers are apart.
unfoldable pub distance : ℕ → ℕ → ℕ
distance a b = (a - b) + (b - a)

mono_scaled : (m n den : ℕ) → m ≤ n → units m * den ≤ units n * den
mono_scaled m n den h = mul-le-mul_right den (omega (arith, units_mono m n h))

-- No magnitude is nearer.
pub IsRounded-nearest :
    (num den m : ℕ)
    → IsRounded num den m
    → (y : ℕ) → distance (units m * den) num ≤ distance (units y * den) num
unfolding distance
IsRounded-nearest num den m h y =
    let side : (y ≤ h.floor) ⊎ (suc h.floor ≤ y) = omega arith in
    let bound : (units y * den ≤ units h.floor * den)
        ⊎ (units (suc h.floor) * den ≤ units y * den) =
      elim side [
        | inl l ↦ inl (mono_scaled y h.floor den l)
        | inr l ↦ inr (mono_scaled (suc h.floor) y den l)
      ] in
    elim h.nearer [
      | inl c ↦ rw c.0 (omega (arith, c.1, h.from_below, h.from_above, bound))
      | inr c ↦ rw c.0 (omega (arith, c.1, h.from_below, h.from_above, bound))
    ]

step_scaled : (m den : ℕ) → 0 < den → units m * den < units (suc m) * den
step_scaled m den pos = mul-lt-mul_of_pos_right (units-step m) pos

pub below_scaled : (m n den : ℕ) → units m * den < units n * den → m < n
below_scaled m n den h =
    let cases : (m < n) ⊎ (n ≤ m) = omega arith in
    elim cases [ inl l ↦ l | inr l ↦ omega (arith, mono_scaled n m den l) ]

-- A value of a magnitude is kept.
pub IsRounded-exact : (den m y : ℕ) → 0 < den → IsRounded (units y * den) den m → m ≡ y
IsRounded-exact den m y pos h =
    let up : y < suc h.floor = below_scaled y (suc h.floor) den h.from_above in
    let down : h.floor < suc y =
      below_scaled h.floor (suc y) den (omega (arith, step_scaled y den pos, h.from_below)) in
    let same : y ≡ h.floor = omega arith in
    let gap : units y * den < units (suc h.floor) * den = h.from_above in
    let value : units y * den ≡ units h.floor * den = ap (λ t. units t * den) same in
    elim h.nearer [ inl c ↦ c.0 ∙ sym same | inr c ↦ omega (arith, c.0, c.1) ]

-- A greater number is not rounded to a lesser magnitude.
pub IsRounded-mono :
    (den num m num' m' : ℕ)
    → 0 < den
    → IsRounded num den m
    → IsRounded num' den m'
    → num < num'
    → m ≤ m'
IsRounded-mono den num m num' m' pos h h' le =
    let floors : h.floor < suc h'.floor =
      below_scaled h.floor (suc h'.floor) den (omega (arith, h.from_below, h'.from_above)) in
    let cases : (h.floor < h'.floor) ⊎ (h.floor ≡ h'.floor) = omega arith in
    elim cases [
      | inl l ↦ omega (arith, h.nearer, h'.nearer)
      | inr e ↦
          let here : units h.floor * den ≡ units h'.floor * den = ap (λ t. units t * den) e in
          let above : units (suc h.floor) * den ≡ units (suc h'.floor) * den =
            ap (λ t. units (suc t) * den) e in
          omega (arith, h.nearer, h'.nearer)
    ]

-- The magnitude above a rounded one is over the number, the one below it is under it.
pub IsRounded-above : (num den m : ℕ) → 0 < den → IsRounded num den m → num < units (suc m) * den
IsRounded-above num den m pos h =
    let gap : units (suc h.floor) * den < units (suc (suc h.floor)) * den =
      step_scaled (suc h.floor) den pos in
    elim h.nearer [ inl c ↦ rw c.0 h.from_above | inr c ↦ rw c.0 (omega (arith, h.from_above)) ]

pub IsRounded-below : (num den k : ℕ) → 0 < den → IsRounded num den (suc k) → units k * den ≤ num
IsRounded-below num den k pos h =
    let floor : k ≤ h.floor = omega (arith, h.nearer) in
    omega (arith, h.from_below, mono_scaled k h.floor den floor)

pub round_ratio_mono :
    (num num' den : ℕ)
    → 0 < den
    → num ≤ num'
    → round_ratio num den < infinite
    → round_ratio num' den < infinite
    → round_ratio num den ≤ round_ratio num' den
round_ratio_mono num num' den pos le finite finite' =
    let cases : (num < num') ⊎ (num ≡ num') = omega arith in
    elim cases [
      | inl l ↦
          IsRounded-mono den num (round_ratio num den) num' (round_ratio num' den) pos
            (round_ratio-IsRounded num den pos finite) (round_ratio-IsRounded num' den pos finite')
            l
      | inr e ↦ omega (arith, ap (λ t. round_ratio t den) e)
    ]

-- A magnitude that is worth at most the number is at most the rounded one, and the other way around.
pub IsRounded-over : (num den m y : ℕ) → IsRounded num den m → units y * den ≤ num → y ≤ m
IsRounded-over num den m y h le =
    let floor : y < suc h.floor = below_scaled y (suc h.floor) den (omega (arith, h.from_above)) in
    omega (arith, h.nearer)

pub IsRounded-under :
    (num den m y : ℕ) → 0 < den → IsRounded num den m → num ≤ units y * den → m ≤ y
IsRounded-under num den m y pos h le =
    let floor : h.floor < suc y =
      below_scaled h.floor (suc y) den (omega (arith, step_scaled y den pos, h.from_below)) in
    let cases : (h.floor < y) ⊎ (h.floor ≡ y) = omega arith in
    elim cases [
      | inl l ↦ omega (arith, h.nearer)
      | inr e ↦
          let here : units h.floor * den ≡ units y * den = ap (λ t. units t * den) e in
          omega (arith, h.nearer, h.from_below, step_scaled h.floor den pos)
    ]
