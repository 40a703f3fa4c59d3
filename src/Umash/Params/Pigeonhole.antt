-- ===== src/Umash/Params/Pigeonhole.antt =====
-- Of more than n different numbers, one is not in a list of n words.
use umash.Prelude.{
  ℕ, suc, ◌+◌, ◌≤◌, ◌<◌, ◌≡◌, ◌≢◌, refl, sym, ◌⊎◌, ==_iff, Bool-cases, inl, inr, false, List, [],
  ◌∷◌, length, ltb, ◌==◌, if◌then◌else◌, arith,
}
use umash.Umash.Params.{contains}

-- The sequence without its member `k`.
skip : ℕ → ℕ → ℕ
skip k i = if ltb i k then i else i + 1

skip_mono : (k i j : ℕ) → i < j → skip k i < skip k j
unfolding skip
skip_mono k i j h = ground arith

skip-le : (k i : ℕ) → skip k i ≤ i + 1
unfolding skip
skip-le k i = ground arith

skip-ne : (k i : ℕ) → skip k i ≢ k
unfolding skip
skip-ne k i h = ground arith

-- The members up to `n` of a sequence are different.
abbrev pub DifferentUpTo : ℕ → (ℕ → ℕ) → Type 0
DifferentUpTo n f = (i j : ℕ) → i < j → j ≤ n → f i ≢ f j

different : (n : ℕ) (f : ℕ → ℕ) → DifferentUpTo n f → (i j : ℕ) → i ≢ j → i ≤ n → j ≤ n → f i ≢ f j
different n f h i j ne hi hj e =
    let order : (i < j) ⊎ (j < i) = omega arith in
    elim order [ inl below ↦ h i j below hj e | inr above ↦ h j i above hi (sym e) ]

pub fresh_member :
    (vs : List ℕ) (f : ℕ → ℕ)
    → DifferentUpTo (length vs) f
    → (k : ℕ) × (k ≤ length vs) × (contains (f k) vs ≡ false)
unfolding contains
fresh_member [] f h = (0, omega arith, refl)
fresh_member (v ∷ vs) f h =
    let (k, small, fresh) = fresh_member vs f (λ i j below top. h i j below (omega arith)) in
    let (i, low, other) =
      fresh_member vs (λ i. f (skip k i))
        (λ i j below top.
          h (skip k i) (skip k j) (skip_mono k i j below) (omega (arith, skip-le k j))) in
    let apart : f (skip k i) ≢ f k =
      different (suc (length vs)) f h (skip k i) k (skip-ne k i) (omega (arith, skip-le k i))
        (omega arith) in
    elim (Bool-cases (f k == v)) [
      | inr new ↦ (k, omega arith, rw new fresh)
      | inl old ↦
          let same : f k ≡ v = (==_iff (f k) v).0 old in
          let new : (f (skip k i) == v) ≡ false = ground arith in
          (skip k i, omega (arith, skip-le k i), rw new other)
    ]
