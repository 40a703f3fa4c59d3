-- ===== src/Python/Generator.antt =====
-- A generator that is run to its end: the values that it yields in order, and then either the
-- normal end or an exception. A consumer has seen all the values that stand before the exception.
use umash.Prelude.{List, [], ◌∷◌}
use umash.Python.Exceptions.{Error, Result, ok, raise}

pub data Gen {ℓ} (A : Type ℓ) : Type ℓ where
  stop : Gen A
  fail : Error → Gen A
  yield : A → Gen A → Gen A

-- The generator that yields the elements of a list and ends normally.
abbrev pub from_list {ℓ} : {A : Type ℓ} → List A → Gen A
from_list [] = stop
from_list (x ∷ xs) = yield x (from_list xs)

-- A result that decides how the generator goes on.
abbrev pub or_fail {ℓ κ} : {A : Type ℓ} {B : Type κ} → Result A → (A → Gen B) → Gen B
or_fail (ok a) k = k a
or_fail (raise e) k = fail e
