-- ===== src/Sampler/Parallel/Units.antt =====
-- What becomes of the work units of _generate_in_parallel: each is pending, or its result was yielded, once.
use mathlib.Core.List.Perm
use mathlib.Core.List.{Perm}
use umash.Prelude.{
  ℕ, zero, suc, ◌≡◌, refl, ap, ◌∙◌, ◌⊎◌, inl, inr, Option, none, some, List, [], ◌∷◌, ◌++◌, length,
}
use umash.Python.{Result, ok, raise, ◌>>=◌, ok_inj, Error}
use umash.Python.Float.{Float}
use umash.Sampler.Parallel.{Coordinator, get_all}

-- 0, ..., n - 1.
abbrev pub numbers : ℕ → List ℕ
numbers zero = []
numbers (suc n) = numbers n ++ n ∷ []

pub Result-cases :
    {A : Type 0} (r : Result A) → ((a : A) × (r ≡ ok a)) ⊎ ((e : Error) × (r ≡ raise e))
Result-cases (ok a) = inl (a, refl)
Result-cases (raise e) = inr (e, refl)

-- A result and the results after it.
module _ {V : Type 0} where
  cons-eq-ok :
      (r : Result V) (rest : Result (List V)) {values : List V}
      → (r >>= λ v. rest >>= λ vs. ok (v ∷ vs)) ≡ ok values
      → (v : V) × (vs : List V) × (r ≡ ok v) × (rest ≡ ok vs) × (v ∷ vs ≡ values)
  cons-eq-ok (ok v) (ok vs) h = (v, vs, refl, refl, ok_inj h)
  cons-eq-ok (ok v) (raise e) h = cc
  cons-eq-ok (raise e) rest h = cc

  cons-eq-raise :
      (r : Result V) (rest : Result (List V)) {error : Error}
      → (r >>= λ v. rest >>= λ vs. ok (v ∷ vs)) ≡ raise error
      → (r ≡ raise error) ⊎ (rest ≡ raise error)
  cons-eq-raise (ok v) (ok vs) h = cc
  cons-eq-raise (ok v) (raise e) h = inr h
  cons-eq-raise (raise e) rest h = inl (cc)

module _ {V : Type 0} (result : ℕ → Result V) where
  pub get_all-append :
      (futures more : List ℕ) {values rest : List V}
      → get_all result futures ≡ ok values
      → get_all result more ≡ ok rest
      → get_all result (futures ++ more) ≡ ok (values ++ rest)
  unfolding get_all
  get_all-append [] more {values} {rest} h k = k ∙ ap (λ vs. ok (vs ++ rest)) (ok_inj h)
  get_all-append (future ∷ futures) more {values} {rest} h k =
      let (v, vs, first, those, joined) = cons-eq-ok (result future) (get_all result futures) h in
      rw (first, get_all-append futures more those k) (ap (λ t. ok (t ++ rest)) joined)

  -- A failed get of several comes from one of them.
  pub get_all-failed :
      (futures : List ℕ) {error : Error}
      → get_all result futures ≡ raise error
      → (future : ℕ) × (result future ≡ raise error)
  unfolding get_all
  get_all-failed [] h = cc
  get_all-failed (future ∷ futures) h =
      elim (cons-eq-raise (result future) (get_all result futures) h) [
        | inl here ↦ (future, here)
        | inr there ↦ get_all-failed futures there
      ]

module _ {Args : Type 0} (cpu_count : ℕ) (begin : Float) where
  -- All units are pending, or among those that were taken.
  abbrev pub AreKept : List ℕ → Coordinator Args → Type 0
  AreKept taken c = Perm (taken ++ c.pending) (numbers (length c.submitted))

  module _ {V : Type 0} (result : ℕ → Result V) where
    -- How a run ended, and what it yielded.
    pub record AreYielded (run : List V × Coordinator Args × Option Error) (taken : List ℕ)
        : Type 0 where
      pub yields : get_all result taken ≡ ok (run.0)
      pub kept : AreKept taken (run.1)
      pub end :
          (run.2 ≡ none)
          ⊎ ((error : Error) × (future : ℕ) × (run.2 ≡ some error) × (result future ≡ raise error))
