-- ===== src/Python/Dict/Lookup.antt =====
-- Lookups in a dict whose key test is equality.
use umash.Prelude.{
  ◌≡◌, refl, sym, ap, ◌∙◌, ◌↔◌, Bool, true, false, Bool-cases, inl, inr, some, List, [], ◌∷◌,
  if◌then◌else◌,
}
use umash.Python.Exceptions.{ok}
use umash.Python.Dict.{dict_get, dict_set, dict_item}

-- Keys with a test of equality.
pub record Names : Type 1 where
  pub Name : Type 0
  pub same : Name → Name → Bool
  pub same_iff : (a b : Name) → (same a b ≡ true) ↔ (a ≡ b)

module _ (names : Names) {V : Type 0} where
  pub dict_get-dict_set :
      (k : names.Name) (v : V) (d : List (names.Name × V))
      → dict_get names.same k (dict_set names.same k v d) ≡ some v
  unfolding dict_get dict_set
  dict_get-dict_set k v [] = rw ((names.same_iff k k).1 refl) refl
  dict_get-dict_set k v (e ∷ d) = elim (Bool-cases (names.same k e.0)) [
    | inl found ↦ rw (found, found) refl
    | inr other ↦ rw (other, other) (dict_get-dict_set k v d)
  ]

  pub dict_get-dict_set_other :
      (l k : names.Name) (v : V) (d : List (names.Name × V))
      → names.same l k ≡ false
      → dict_get names.same l (dict_set names.same k v d) ≡ dict_get names.same l d
  unfolding dict_get dict_set
  dict_get-dict_set_other l k v [] apart = rw apart refl
  dict_get-dict_set_other l k v (e ∷ d) apart = elim (Bool-cases (names.same k e.0)) [
    | inl found ↦
        let there : k ≡ e.0 = (names.same_iff k e.0).0 found in
        let miss : names.same l e.0 ≡ false = ap (names.same l) (sym there) ∙ apart in
        rw (found, miss) refl
    | inr other ↦ rw other (
        ap (λ rest. if names.same l e.0 then some e.1 else rest)
          (dict_get-dict_set_other l k v d apart))
  ]

  pub dict_item-some :
      (k : names.Name) (v : V) (d : List (names.Name × V))
      → dict_get names.same k d ≡ some v
      → dict_item names.same k d ≡ ok v
  unfolding dict_item
  dict_item-some k v d found = rw found refl
