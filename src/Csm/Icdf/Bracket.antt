-- ===== src/Csm/Icdf/Bracket.antt =====
-- The lower end of the interval that _beta_icdf_lo of t/csm.py tightens.
use umash.Prelude.{
  ℕ, zero, suc, ◌≡◌, refl, ◌⊎◌, inl, inr, Bool, true, false, Option, none, some, if◌then◌else◌,
  Bool-cases,
}
use umash.Python.{Result, ok, raise, ◌>>=◌}
use umash.Python.Float.{Float, positive, flt}
use umash.Csm.Ulps.{Libm}
use umash.Csm.Incbeta.{incbeta}
use umash.Csm.Icdf.{
  Interval, leaves, tightens, tighten, midpoint, is_close_enough, goes_on, bisect_round, bisect,
}

-- If a computation returns, its value satisfies P.
abbrev IfReturns : {A : Type 0} → Result A → (A → Type 0) → Type 0
IfReturns (ok a) P = P a
IfReturns (raise e) P = Unit

IfReturns-bind :
    {A B : Type 0} (P : A → Type 0) (Q : B → Type 0) (f : A → Result B) (r : Result A)
    → IfReturns r P
    → ((a : A) → P a → IfReturns (f a) Q)
    → IfReturns (r >>= f) Q
IfReturns-bind P Q f (ok a) h k = k a h
IfReturns-bind P Q f (raise e) h k = tt

IfReturns-refl : {A : Type 0} (r : Result A) → IfReturns r (λ a. r ≡ ok a)
IfReturns-refl (ok a) = refl
IfReturns-refl (raise e) = tt

module _ (libm : Libm) (a b : ℕ) (alpha : Float) where
  -- The lower end is 0.0, or _incbeta found a value below alpha there.
  pub IsBelow : Float → Type 0
  IsBelow lo =
      (lo ≡ positive 0)
      ⊎ ((limit : Option ℕ) × (px : Float) × (incbeta libm a b lo alpha limit ≡ ok (some px))
          × (flt px alpha ≡ true))

  IsBelowAfter : Interval → Type 0
  IsBelowAfter leaves = Unit
  IsBelowAfter (tightens lo hi) = IsBelow lo

  tighten-IsBelow :
      (lo hi : Float) (limit : Option ℕ) (close_enough : Bool) (px : Option Float)
      → IsBelow lo
      → incbeta libm a b (midpoint lo hi) alpha limit ≡ ok px
      → IsBelowAfter (tighten alpha lo hi (midpoint lo hi) px close_enough)
  unfolding tighten IsBelowAfter IsBelow
  tighten-IsBelow lo hi limit true none h e = tt
  tighten-IsBelow lo hi limit false none h e = h
  tighten-IsBelow lo hi limit close_enough (some px) h e = elim (Bool-cases (flt px alpha)) [
    | inl k ↦ rw k (inr (limit, px, e, k))
    | inr k ↦ rw k h
  ]

  bisect_round-IsBelow :
      (lo hi : Float) → IsBelow lo → IfReturns (bisect_round libm a b alpha lo hi) IsBelowAfter
  unfolding bisect_round IsBelowAfter
  bisect_round-IsBelow lo hi h =
      let close_enough = is_close_enough lo hi in
      let limit = if close_enough then some 1000 else none in
      let r = incbeta libm a b (midpoint lo hi) alpha limit in
      IfReturns-bind (λ px. r ≡ ok px) IsBelowAfter
        (λ px. ok (tighten alpha lo hi (midpoint lo hi) px close_enough)) r (IfReturns-refl r)
        (λ px e. tighten-IsBelow lo hi limit close_enough px h e)

  -- What the loop does after a round.
  after_round-IsBelow :
      (lo hi : Float) (rest : Float → Float → Result (Float × Float)) (interval : Interval)
      → IsBelow lo
      → ((lo hi : Float) → IsBelow lo → IfReturns (rest lo hi) (λ ends. IsBelow (ends.0)))
      → IsBelowAfter interval
      → IfReturns {A = Float × Float}
          (elim interval as (λ i. Result (Float × Float)) [
            | leaves ↦ ok (lo, hi)
            | tightens lo hi ↦ rest lo hi
          ])
          (λ ends. IsBelow (ends.0))
  unfolding IsBelowAfter
  after_round-IsBelow lo hi rest leaves h k below = h
  after_round-IsBelow lo hi rest (tightens lo' hi') h k below = k lo' hi' below

  -- From such a lower end, the bisection returns another one, if it returns.
  pub bisect-IsBelow :
      (fuel : ℕ) (lo hi : Float)
      → IsBelow lo
      → IfReturns (bisect libm fuel a b alpha lo hi) (λ ends. IsBelow (ends.0))
  unfolding bisect
  bisect-IsBelow zero lo hi h = tt
  bisect-IsBelow (suc fuel) lo hi h = elim (Bool-cases (goes_on lo hi)) [
    | inr k ↦ rw k h
    | inl k ↦ rw k (
        IfReturns-bind IsBelowAfter (λ (ends : Float × Float). IsBelow (ends.0)) _
          (bisect_round libm a b alpha lo hi) (bisect_round-IsBelow lo hi h)
          (λ interval below.
            after_round-IsBelow lo hi (bisect libm fuel a b alpha) interval h (bisect-IsBelow fuel)
              below))
  ]
