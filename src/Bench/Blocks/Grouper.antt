-- ===== src/Bench/Blocks/Grouper.antt =====
-- The blocks of grouper hold the values in order, and a driver that copies a block reads them back.
use umash.Prelude.{
  ℕ, zero, suc, ◌≤◌, ◌≡◌, refl, ap, Option, none, some, List, [], ◌∷◌, ◌++◌, take, drop, length,
  take-append-drop, length-drop, arith,
}
use umash.Python.{ok, ◌>>=◌}
use umash.Bench.Blocks.{next_block, grouper_loop, grouper, fill_inputs}

-- The values in front of the first None.
pub values_of {ℓ} : {A : Type ℓ} → List (Option A) → List A
values_of [] = []
values_of (none ∷ block) = []
values_of (some x ∷ block) = x ∷ values_of block

pub all_values {ℓ} : {A : Type ℓ} → List (List (Option A)) → List A
all_values [] = []
all_values (block ∷ blocks) = values_of block ++ all_values blocks

pub values_of-next_block {ℓ} :
    {A : Type ℓ} (n : ℕ) (xs : List A) → values_of (next_block n xs) ≡ take n xs
unfolding values_of next_block
values_of-next_block zero xs = refl
values_of-next_block (suc n) [] = refl
values_of-next_block (suc n) (x ∷ xs) = ap (λ t. x ∷ t) (values_of-next_block n xs)

all_values-grouper_loop {ℓ} :
    {A : Type ℓ} (fuel n : ℕ) (xs : List A)
    → length xs ≤ fuel
    → all_values (grouper_loop fuel xs (suc n)) ≡ xs
unfolding all_values grouper_loop
all_values-grouper_loop fuel n [] h = refl
all_values-grouper_loop zero n (x ∷ xs) h = absurd (omega arith)
all_values-grouper_loop (suc fuel) n (x ∷ xs) h =
    rw
      (
        values_of-next_block (suc n) (x ∷ xs),
        all_values-grouper_loop fuel n (drop (suc n) (x ∷ xs)) (omega (arith, length-drop n xs)),
      )
      (take-append-drop (suc n) (x ∷ xs))

-- The blocks of a positive size hold the values of the iterable, in order.
pub all_values-grouper {ℓ} :
    {A : Type ℓ} (n : ℕ) (xs : List A) → all_values (grouper xs (suc n)) ≡ xs
unfolding grouper
all_values-grouper n xs = all_values-grouper_loop (length xs) n xs (omega arith)

-- A buffer as long as the block takes its values.
pub fill_inputs-values_of :
    (block : List (Option ℕ)) (inputs : List ℕ)
    → length block ≤ length inputs
    → (filled : List ℕ) × (fill_inputs block inputs ≡ ok (length (values_of block), filled))
      × (take (length (values_of block)) filled ≡ values_of block)
      × (length filled ≡ length inputs)
unfolding fill_inputs values_of
fill_inputs-values_of [] inputs h = (inputs, refl, refl, refl)
fill_inputs-values_of (none ∷ block) inputs h = (inputs, refl, refl, refl)
fill_inputs-values_of (some x ∷ block) [] h = absurd (omega arith)
fill_inputs-values_of (some x ∷ block) (old ∷ inputs) h =
    let (filled, there, values, size) = fill_inputs-values_of block inputs (omega arith) in
    (
      x ∷ filled,
      ap (λ r. r >>= λ rest. ok (suc rest.0, x ∷ rest.1)) there,
      ap (λ t. x ∷ t) values,
      omega arith,
    )
