-- ===== src/Python/Dict/Groups.antt =====
-- A defaultdict that groups items: dict_change puts one more item under its key.
use mathlib.Core.List.Perm
use mathlib.Core.List.{Perm, perm_middle}
use umash.Prelude.{Bool, true, false, ◌≡◌, Bool-cases, inl, inr, List, [], ◌∷◌, ◌++◌, All}
use umash.Python.Dict.{dict_change}

module _ {ℓ κ μ} {K : Type ℓ} {V : Type κ} {S : Type μ} (items : V → List S) where
  -- The items of all groups, in order.
  unfoldable pub all_items : List (K × V) → List S
  all_items [] = []
  all_items (e ∷ d) = items e.1 ++ all_items d

module _ {ℓ κ μ} {K : Type ℓ} {V : Type κ} {S : Type μ} (same : K → K → Bool)
    (items : V → List S) where
  pub all_items-dict_change :
      (k : K) (missing : V) (change : V → V) (s : S)
      → items missing ≡ []
      → ((v : V) → Perm (items (change v)) (s ∷ items v))
      → (d : List (K × V))
      → Perm (all_items items (dict_change same k missing change d)) (s ∷ all_items items d)
  unfolding dict_change all_items
  all_items-dict_change k missing change s empty adds [] =
      Perm.append_right [] (rw empty at (adds missing))
  all_items-dict_change k missing change s empty adds (e ∷ d) = elim (Bool-cases (same k e.0)) [
    | inl found ↦ rw found (Perm.append_right (all_items items d) (adds e.1))
    | inr other ↦ rw other (
        Perm.trans
          (Perm.append_left (items e.1) (all_items-dict_change k missing change s empty adds d))
          (perm_middle (items e.1) (all_items items d)))
  ]

module _ {ℓ κ} {K : Type ℓ} {V : Type κ} (same : K → K → Bool) where
  -- No two keys are the same: each was compared with those in front of it.
  unfoldable pub DistinctKeys : List (K × V) → Type (ℓ ⊔ κ)
  DistinctKeys [] = Unit
  DistinctKeys (e ∷ d) = All (λ f. same f.0 e.0 ≡ false) d × DistinctKeys d

module _ {ℓ κ μ} {K : Type ℓ} {V : Type κ} (same : K → K → Bool) (Good : K → V → Type μ) (k : K)
    (missing : V) (change : V → V) where
  -- What holds of the group of a new key, and is kept by the change of an old one, holds of all.
  pub All-dict_change :
      Good k (change missing)
      → ((l : K) (v : V) → same k l ≡ true → Good l v → Good l (change v))
      → (d : List (K × V)) → All (λ e. Good e.0 e.1) d
      → All (λ e. Good e.0 e.1) (dict_change same k missing change d)
  unfolding dict_change
  All-dict_change first more [] h = (first, tt)
  All-dict_change first more (e ∷ d) h = elim (Bool-cases (same k e.0)) [
    | inl found ↦ rw found (more e.0 e.1 found h.0, h.1)
    | inr other ↦ rw other (h.0, All-dict_change first more d h.1)
  ]

module _ {ℓ κ} {K : Type ℓ} {V : Type κ} (same : K → K → Bool) (k : K) (missing : V)
    (change : V → V) where
  keys-dict_change :
      (l : K) (d : List (K × V))
      → same k l ≡ false
      → All (λ f. same f.0 l ≡ false) d
      → All (λ f. same f.0 l ≡ false) (dict_change same k missing change d)
  unfolding dict_change
  keys-dict_change l [] new h = (new, tt)
  keys-dict_change l (e ∷ d) new h = elim (Bool-cases (same k e.0)) [
    | inl found ↦ rw found (h.0, h.1)
    | inr other ↦ rw other (h.0, keys-dict_change l d new h.1)
  ]

  pub DistinctKeys-dict_change :
      (d : List (K × V))
      → DistinctKeys same d
      → DistinctKeys same (dict_change same k missing change d)
  unfolding dict_change DistinctKeys
  DistinctKeys-dict_change [] h = (tt, tt)
  DistinctKeys-dict_change (e ∷ d) h = elim (Bool-cases (same k e.0)) [
    | inl found ↦ rw found (h.0, h.1)
    | inr other ↦ rw other (keys-dict_change e.0 d other h.0, DistinctKeys-dict_change d h.1)
  ]
