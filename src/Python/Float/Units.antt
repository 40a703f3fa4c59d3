-- ===== src/Python/Float/Units.antt =====
-- The exact values of magnitudes: how a significand and an exponent give one, and that they grow
-- with the magnitude.
use native.Mathlib.Nat.{pow-suc, one-le-pow}
use umash.Prelude.{
  ℕ, zero, suc, ◌+◌, ◌-◌, ◌*◌, ◌/◌, ◌%◌, ◌^◌, ◌≤◌, ◌<◌, ◌≡◌, refl, sym, ap, ◌∙◌, ◌⊎◌, inl, inr,
  arith,
}
use umash.Python.Float.Round.{scaled_value, units}

units-parts : (e f : ℕ) → f < 2 ^ 52 → units (e * 2 ^ 52 + f) ≡ scaled_value e f
unfolding units
units-parts e f h =
    let biased : (e * 2 ^ 52 + f) / 2 ^ 52 ≡ e = omega arith in
    let fraction : (e * 2 ^ 52 + f) % 2 ^ 52 ≡ f = omega arith in rw (biased, fraction) refl

-- A normal magnitude by its exponent and its significand, which may be one that is rounded up.
normal : (k q : ℕ) → 2 ^ 52 ≤ q → q < 2 ^ 53 → units (k * 2 ^ 52 + q) ≡ q * 2 ^ k
unfolding scaled_value
normal k q h1 h2 =
    ap units (omega arith)
    ∙ units-parts (suc k) (q - 2 ^ 52) (omega arith)
    ∙ ap (λ t. t * 2 ^ k) (omega arith)

carried : (k : ℕ) → units (k * 2 ^ 52 + 2 ^ 53) ≡ 2 ^ 53 * 2 ^ k
carried k =
    ap units (omega arith)
    ∙ normal (suc k) (2 ^ 52) (omega arith) (omega arith)
    ∙ omega (arith, pow-suc 2 k)

pub units-scaled : (k q : ℕ) → 2 ^ 52 ≤ q → q ≤ 2 ^ 53 → units (k * 2 ^ 52 + q) ≡ q * 2 ^ k
units-scaled k q h1 h2 =
    let cases : (q < 2 ^ 53) ⊎ (q ≡ 2 ^ 53) = omega arith in
    elim cases [ inl h ↦ normal k q h1 h | inr h ↦ rw h (carried k) ]

-- Up to 2 ** 53 a magnitude is its own value.
pub units_low : (q : ℕ) → q ≤ 2 ^ 53 → units q ≡ q
unfolding scaled_value
units_low q h =
    let cases : (q < 2 ^ 52) ⊎ (2 ^ 52 ≤ q) = omega arith in
    elim cases [
      | inl l ↦ ap units (omega arith) ∙ units-parts 0 q l
      | inr l ↦ ap units (omega arith) ∙ units-scaled 0 q l h ∙ omega arith
    ]

-- What a significand q under a scale k is worth: all finite values are so, and the next magnitude is
-- worth one step of the scale more.
pub record IsScaled (k q : ℕ) : Type 0 where
  pub below : q < 2 ^ 53
  pub normal_or_low : (k ≡ 0) ⊎ (2 ^ 52 ≤ q)

pub units-here : (k q : ℕ) → IsScaled k q → units (k * 2 ^ 52 + q) ≡ q * 2 ^ k
units-here k q h = elim h.normal_or_low [
  | inl z ↦ rw z (ap units (omega arith) ∙ units_low q (omega (arith, h.below)) ∙ omega arith)
  | inr l ↦ units-scaled k q l (omega (arith, h.below))
]

pub units-above : (k q : ℕ) → IsScaled k q → units (suc (k * 2 ^ 52 + q)) ≡ suc q * 2 ^ k
units-above k q h = elim h.normal_or_low [
  | inl z ↦ rw z (ap units (omega arith) ∙ units_low (suc q) (omega (arith, h.below)) ∙ omega arith)
  | inr l ↦ ap units (omega arith) ∙ units-scaled k (suc q) (omega arith) (omega (arith, h.below))
]

-- Every magnitude is one.
pub scale_of : (m : ℕ) → (k : ℕ) × (q : ℕ) × (m ≡ k * 2 ^ 52 + q) × IsScaled k q
scale_of m =
    let cases : (m < 2 ^ 53) ⊎ (2 ^ 53 ≤ m) = omega arith in
    elim cases [
      | inl h ↦ (0, m, omega arith, record { below = h; normal_or_low = inl refl })
      | inr h ↦ (
        m / 2 ^ 52 - 1,
        2 ^ 52 + m % 2 ^ 52,
        omega arith,
        record { below = omega arith; normal_or_low = inr (omega arith) },
      )
    ]

pub units-step : (m : ℕ) → units m < units (suc m)
units-step m =
    let (k, q, e, h) = scale_of m in
    rw e (omega (arith, units-here k q h, units-above k q h, one-le-pow k 2 (omega arith)))

units_mono_by : (m d : ℕ) → units m + d ≤ units (m + d)
units_mono_by m zero = let e : m + 0 ≡ m = omega arith in rw e (omega arith)
units_mono_by m (suc d) =
    let e : m + suc d ≡ suc (m + d) = omega arith in
    rw e (omega (arith, units-step (m + d), units_mono_by m d))

pub units_mono : (m n : ℕ) → m ≤ n → units m + (n - m) ≤ units n
units_mono m n h =
    let e : m + (n - m) ≡ n = omega arith in rw (sym (ap units e)) (units_mono_by m (n - m))
