-- ===== src/Python/Float/Multiples.antt =====
-- Numbers that are the values of magnitudes: small multiples of a power of two.
use native.Mathlib.Nat.{pow-suc, one-le-pow, mul-le-mul_right, mul-sub}
use umash.Prelude.{
  ℕ, zero, suc, ◌+◌, ◌-◌, ◌*◌, ◌^◌, ◌≤◌, ◌<◌, ◌≡◌, sym, subst, ◌∙◌, ◌⊎◌, inl, inr, arith,
}
use umash.Python.Float.Round.{units}
use umash.Python.Float.Units.{units_low, units-scaled}

-- A magnitude with this value.
pub record Representable (n : ℕ) : Type 0 where
  pub magnitude : ℕ
  pub worth : units magnitude ≡ n

doubled : (q k : ℕ) → 2 * q * 2 ^ k ≡ q * 2 ^ suc k
doubled q k = rw (pow-suc 2 k) (grind arith)

Representable-small : (k q : ℕ) → q ≤ 2 ^ 53 → Representable (q * 2 ^ k)
Representable-small zero q h = record { magnitude = q; worth = units_low q h ∙ omega arith }
Representable-small (suc k) q h =
    let cases : (2 ^ 52 ≤ q) ⊎ (q < 2 ^ 52) = omega arith in
    elim cases [
      | inl l ↦ record { magnitude = suc k * 2 ^ 52 + q; worth = units-scaled (suc k) q l h }
      | inr l ↦
          let r = Representable-small k (2 * q) (omega arith) in
          record { magnitude = r.magnitude; worth = r.worth ∙ doubled q k }
    ]

pub record IsMultiple (k n : ℕ) : Type 0 where
  pub quotient : ℕ
  pub exact : n ≡ quotient * 2 ^ k

cancel_scale : (k q b : ℕ) → q * 2 ^ k ≤ b * 2 ^ k → q ≤ b
cancel_scale k q b h =
    let cases : (q ≤ b) ⊎ (suc b ≤ q) = omega arith in
    elim cases [
      | inl l ↦ l
      | inr l ↦ omega (arith, mul-le-mul_right (2 ^ k) l, one-le-pow k 2 (omega arith))
    ]

-- A multiple that is no greater than 2 ** 53 steps is representable.
pub IsMultiple-Representable : (k n : ℕ) → IsMultiple k n → n ≤ 2 ^ 53 * 2 ^ k → Representable n
IsMultiple-Representable k n h le =
    let r =
      Representable-small k h.quotient
        (cancel_scale k h.quotient (2 ^ 53) (omega (arith, h.exact))) in
    record { magnitude = r.magnitude; worth = r.worth ∙ sym h.exact }

pub IsMultiple-add : (k a b : ℕ) → IsMultiple k a → IsMultiple k b → IsMultiple k (a + b)
IsMultiple-add k a b h j = record {
  quotient = h.quotient + j.quotient;
  exact = omega (arith, h.exact, j.exact);
}

pub IsMultiple-sub : (k a b : ℕ) → IsMultiple k a → IsMultiple k b → IsMultiple k (a - b)
IsMultiple-sub k a b h j = record {
  quotient = h.quotient - j.quotient;
  exact = omega (arith, h.exact, j.exact, mul-sub (2 ^ k) h.quotient j.quotient);
}

weaken_by : (d k n : ℕ) → IsMultiple (d + k) n → IsMultiple k n
weaken_by zero k n h = let e : zero + k ≡ k = omega arith in subst (λ t. IsMultiple t n) e h
weaken_by (suc d) k n h =
    let e : suc d + k ≡ suc (d + k) = omega arith in
    let there : IsMultiple (suc (d + k)) n = subst (λ t. IsMultiple t n) e h in
    weaken_by d k n (record {
      quotient = 2 * there.quotient;
      exact = there.exact ∙ sym (doubled there.quotient (d + k));
    })

-- A multiple of a power of two is one of the lesser powers.
pub IsMultiple-weaken : (j k n : ℕ) → j ≤ k → IsMultiple k n → IsMultiple j n
IsMultiple-weaken j k n h m =
    let e : k ≡ k - j + j = omega arith in weaken_by (k - j) j n (subst (λ t. IsMultiple t n) e m)
