-- ===== src/Sampler/Statistics/Names.antt =====
-- The names in the results of the sampler are those of the plan, in its order.
use umash.Prelude.{ℕ, ◌≡◌, Bool, false, some, List, [], ◌∷◌, ◌++◌, All}
use umash.Exact.Statistic.{Floats, Statistic}
use umash.Exact.Plan.{Plan}
use umash.Sampler.Statistics.{Library, Values}

pub keys_of : {Name V : Type 0} → List (Name × V) → List Name
keys_of [] = []
keys_of (e ∷ d) = e.0 ∷ keys_of d

module _ {Name : Type 0} (same : Name → Name → Bool) where
  -- No name is the same as one in front of it.
  unfoldable pub Distinct : List Name → Type 0
  Distinct [] = Unit
  Distinct (k ∷ ks) = All (λ l. same l k ≡ false) ks × Distinct ks

module _ (floats : Floats) (Name : Type 0) (same : Name → Name → Bool)
    (exact : Library floats) where
  unfoldable pub names_of : List (Statistic floats Name) → List Name
  names_of [] = []
  names_of (stat ∷ statistics) = stat.name ∷ names_of statistics

  unfoldable pub offset_names : List ((ℕ × ℕ) × List (Statistic floats Name)) → List Name
  offset_names [] = []
  offset_names (item ∷ stats_for_p) = names_of item.1 ++ offset_names stats_for_p

  unfoldable pub plan_names : Plan floats Name → List Name
  plan_names [] = []
  plan_names (item ∷ plan) = offset_names item.1 ++ plan_names plan

  -- The keys of `after` are those of `before` with some names behind them.
  Extends : Values floats Name same exact → List Name → Values floats Name same exact → Type 0
  Extends before names after = keys_of after ≡ keys_of before ++ names

  -- The shuffle does not fail.
  unfoldable pub Shuffles : List ℕ → ℕ → ℕ → Type 0
  Shuffles buf m n =
      (xoshiro : exact.Xoshiro) (p : floats.Float)
      → (shuffled : List ℕ × exact.Xoshiro) × (exact.exact_test_shuffle xoshiro buf m n p
          ≡ some shuffled)
