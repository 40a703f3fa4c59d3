-- ===== src/Python/Dict.antt =====
-- `dict` and `defaultdict`: the items in the order of their first insertion, for a test `same` of
-- keys (for floats that test is no equality: 0.0 and -0.0 are the same key).
pub mod Groups
pub mod Lookup
use umash.Python.Exceptions.{Result, ok, raise, key_error}
use umash.Prelude.{Bool, Option, none, some, List, [], ◌∷◌, ◌++◌, if◌then◌else◌}

abbrev pub or_key_error {ℓ} : {V : Type ℓ} → Option V → Result V
or_key_error none = raise key_error
or_key_error (some v) = ok v

module _ {ℓ κ} {K : Type ℓ} {V : Type κ} (same : K → K → Bool) where
  -- d.get(k)
  unfoldable pub dict_get : K → List (K × V) → Option V
  dict_get k [] = none
  dict_get k (e ∷ d) = if same k e.0 then some e.1 else dict_get k d

  -- d[k] = v
  unfoldable pub dict_set : K → V → List (K × V) → List (K × V)
  dict_set k v [] = (k, v) ∷ []
  dict_set k v (e ∷ d) = if same k e.0 then (e.0, v) ∷ d else e ∷ dict_set k v d

  -- d[k] = change(d[k]) for a defaultdict whose missing values are `missing`
  unfoldable pub dict_change : K → V → (V → V) → List (K × V) → List (K × V)
  dict_change k missing change [] = (k, change missing) ∷ []
  dict_change k missing change (e ∷ d) =
      let rest = dict_change k missing change d in
      if same k e.0 then (e.0, change e.1) ∷ d else e ∷ rest

  -- d[k]
  unfoldable pub dict_item : K → List (K × V) → Result V
  dict_item k d = or_key_error (dict_get k d)
