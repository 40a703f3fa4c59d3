-- ===== src/Prelude/Options.antt =====
-- Chains of optional results, and what every result that is there satisfies.
use mathlib.Core.Path.{◌≡◌, subst}
use mathlib.Core.Option.{Option, none, some}

abbrev pub and_then {ℓ κ} : {A : Type ℓ} {B : Type κ} → Option A → (A → Option B) → Option B
and_then none f = none
and_then (some a) f = f a

abbrev pub Yields {ℓ} : {A : Type ℓ} → Option A → (A → Type 0) → Type 0
Yields none P = Unit
Yields (some a) P = P a

pub Yields-and_then {ℓ κ} :
    {A : Type ℓ} {B : Type κ} (P : A → Type 0) (Q : B → Type 0) (o : Option A) (f : A → Option B)
    → Yields o P
    → ((a : A) → P a → Yields (f a) Q)
    → Yields (and_then o f) Q
Yields-and_then P Q none f h k = tt
Yields-and_then P Q (some a) f h k = k a h

pub Yields_some {ℓ} :
    {A : Type ℓ} (P : A → Type 0) (o : Option A) (a : A) → Yields o P → o ≡ some a → P a
Yields_some P o a h e = subst (λ t. Yields t P) e h
