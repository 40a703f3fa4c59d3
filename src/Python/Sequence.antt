-- ===== src/Python/Sequence.antt =====
-- Indexing and slicing of lists and of `bytes`.
use umash.Prelude.{
  ℕ, zero, suc, ◌-◌, ◌<◌, ◌≡◌, refl, Option, none, some, List, [], ◌∷◌, ◌++◌, true, length-append,
  length, get_elem?, take, drop, All, leb, if◌then◌else◌, arith,
}
use umash.Python.Exceptions.{Result, ok, raise, index_error}

-- A value of type `bytes`.
abbrev pub IsBytes : List ℕ → Type 0
IsBytes = All (λ b. b < 256)

module _ {ℓ} {A : Type ℓ} where
  abbrev or_index_error : Option A → Result A
  or_index_error none = raise index_error
  or_index_error (some x) = ok x

  -- xs[i]
  unfoldable pub index : List A → ℕ → Result A
  index xs i = or_index_error (get_elem? xs i)

  -- xs[-k], for k > 0
  unfoldable pub index_back : List A → ℕ → Result A
  unfolding index
  index_back xs k = if leb k (length xs) then index xs (length xs - k) else raise index_error

  -- xs[a:b]
  abbrev pub slice : ℕ → ℕ → List A → List A
  slice a b xs = take (b - a) (drop a xs)

  -- xs[-k:], for k > 0: the whole of a shorter list
  abbrev pub last_items : ℕ → List A → List A
  last_items k xs = drop (length xs - k) xs

  pub index-ok : (xs : List A) (i : ℕ) → i < length xs → (x : A) × (index xs i ≡ ok x)
  unfolding index
  index-ok [] i h = absurd (omega arith)
  index-ok (x ∷ xs) zero h = (x, refl)
  index-ok (x ∷ xs) (suc i) h = index-ok xs i (omega arith)

  -- An index is read off the rest of the list from there.
  pub index-drop :
      (xs : List A) (i : ℕ) (y : A) (ys : List A) → drop i xs ≡ y ∷ ys → index xs i ≡ ok y
  unfolding index
  index-drop [] zero y ys e = cc
  index-drop [] (suc i) y ys e = cc
  index-drop (x ∷ xs) zero y ys e = cc
  index-drop (x ∷ xs) (suc i) y ys e = index-drop xs i y ys e

  pub drop-suc :
      (xs : List A) (i : ℕ) (y : A) (ys : List A) → drop i xs ≡ y ∷ ys → drop (suc i) xs ≡ ys
  drop-suc [] zero y ys e = cc
  drop-suc [] (suc i) y ys e = cc
  drop-suc (x ∷ xs) zero y ys e = cc
  drop-suc (x ∷ xs) (suc i) y ys e = drop-suc xs i y ys e

  index-append : (xs : List A) (x : A) (ys : List A) → index (xs ++ x ∷ ys) (length xs) ≡ ok x
  unfolding index
  index-append [] x ys = refl
  index-append (y ∷ xs) x ys = index-append xs x ys

  -- The item `k` places before the end.
  pub index_back-append :
      (xs : List A) (x : A) (ys : List A) (k : ℕ)
      → k ≡ suc (length ys)
      → index_back (xs ++ x ∷ ys) k ≡ ok x
  unfolding index_back
  index_back-append xs x ys k e =
      let size = length-append xs (x ∷ ys) in
      let fits : leb k (length (xs ++ x ∷ ys)) ≡ true = ground arith in
      let place : length (xs ++ x ∷ ys) - k ≡ length xs = omega arith in
      rw (fits, place) (index-append xs x ys)
