-- ===== src/Python/Exceptions.antt =====
-- Exceptions: a call that may raise returns a `Result`.
use umash.Prelude.{Bool, true, false, ◌≡◌}

-- The exceptions that the code raises; `out_of_fuel` is none of them, but a loop that had not ended
-- when the fuel of the model was used up.
pub data Error : Type 0 where
  assertion_error exception index_error key_error value_error struct_error zero_division_error
        overflow_error file_not_found_error out_of_fuel :
      Error

pub data Result {ℓ} (A : Type ℓ) : Type ℓ where
  ok : A → Result A
  raise : Error → Result A

infixl 5 ◌>>=◌ ◌>>◌
abbrev pub ◌>>=◌ {ℓ κ} : {A : Type ℓ} {B : Type κ} → Result A → (A → Result B) → Result B
ok a >>= f = f a
raise e >>= f = raise e

abbrev pub ◌>>◌ {ℓ} : {B : Type ℓ} → Result (Unit {0}) → Result B → Result B
m >> k = m >>= λ _. k

-- The `assert` statement.
abbrev pub assert : Bool → Result (Unit {0})
assert true = ok tt
assert false = raise assertion_error

-- What a call that does not raise must have computed.
abbrev pub Returns {ℓ} : {A : Type ℓ} → Result A → (A → Type 0) → Type 0
Returns (ok a) P = P a
Returns (raise e) P = ⊥

pub ok_inj : {A : Type 0} {x y : A} → ok x ≡ ok y → x ≡ y
ok_inj h = cc
