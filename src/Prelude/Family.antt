-- ===== src/Prelude/Family.antt =====
-- Families of things by number, such as threads: a change at one number, and sums of a weight over the
-- first ones.
use umash.Prelude.Tests.{◌==◌, if◌then◌else◌}
use Prim.Native.Nat.{ℕ, zero, suc, ◌+◌, ◌*◌, ◌≤◌, ◌<◌}
use mathlib.Core.Path.{◌≡◌, refl}
use native.Mathlib.Omega.{arith}

abbrev pub update {ℓ} : {A : Type ℓ} → (ℕ → A) → ℕ → A → ℕ → A
update f i a j = if i == j then a else f j

module _ {ℓ} {A : Type ℓ} (weight : A → ℕ) where
  pub total : ℕ → (ℕ → A) → ℕ
  total zero f = 0
  total (suc n) f = weight (f n) + total n f

  total-update_above :
      (n : ℕ) (f : ℕ → A) (i : ℕ) (a : A) → n ≤ i → total n (update f i a) ≡ total n f
  unfolding total
  total-update_above zero f i a h = refl
  total-update_above (suc n) f i a h = ground (arith, total-update_above n f i a)

  -- A change moves the sum by what the weight at that number changes.
  pub total-update :
      (n : ℕ) (f : ℕ → A) (i : ℕ) (a : A)
      → i < n
      → total n (update f i a) + weight (f i) ≡ total n f + weight a
  unfolding total
  total-update zero f i a h = absurd (omega arith)
  total-update (suc n) f i a h = ground (arith, total-update n f i a, total-update_above n f i a)

  pub weight-le-total : (n : ℕ) (f : ℕ → A) (i : ℕ) → i < n → weight (f i) ≤ total n f
  unfolding total
  weight-le-total zero f i h = absurd (omega arith)
  weight-le-total (suc n) f i h = ground (arith, weight-le-total n f i)

  pub total-le :
      (most : ℕ) → ((a : A) → weight a ≤ most) → (n : ℕ) (f : ℕ → A) → total n f ≤ most * n
  unfolding total
  total-le most bound zero f = omega arith
  total-le most bound (suc n) f = grind (arith, bound (f n), total-le most bound n f)
