-- ===== src/Exact/Count/Tally.antt =====
-- The counts of exact_test: for every statistic the number of its values, and of those that are at
-- most, and at least, the value of the actual data.
use umash.Prelude.{
  ℕ, suc, ◌+◌, ◌≤◌, ◌≡◌, refl, ap, ◌∙◌, Bool, true, false, Bool-cases, inl, inr, some, List, [],
  ◌∷◌, length, All, if◌then◌else◌, arith,
}
use umash.Python.{ok}
use umash.Python.Dict.{dict_get, dict_set}
use umash.Python.Dict.Lookup.{Names, dict_get-dict_set, dict_get-dict_set_other, dict_item-some}
use umash.Exact.Statistic.{Floats}
use umash.Exact.Count.{ResultAccumulator, FloatDict, Accumulators, accumulate, count_sample}

module _ (floats : Floats) (names : Names) where
  pub count_if : (floats.Float → Bool) → List floats.Float → ℕ
  count_if test [] = 0
  count_if test (v ∷ vs) = if test v then count_if test vs + 1 else count_if test vs

  -- The accumulator after the values `vs`.
  pub tally : floats.Float → List floats.Float → ResultAccumulator → ResultAccumulator
  tally actual vs acc = record {
    trials = acc.trials + length vs;
    lte_actual = acc.lte_actual + count_if (λ v. floats.fle v actual) vs;
    gte_actual = acc.gte_actual + count_if (λ v. floats.fle actual v) vs;
  }

  -- The values of one statistic in a sample.
  pub values_of : names.Name → FloatDict floats names → List floats.Float
  values_of name [] = []
  values_of name (item ∷ sample) =
      if names.same name item.0 then item.1 ∷ values_of name sample else values_of name sample

  tally_none : (actual : floats.Float) (acc : ResultAccumulator) → acc ≡ tally actual [] acc
  unfolding tally count_if
  tally_none actual acc =
      let trials : acc.trials ≡ acc.trials + 0 = omega arith in
      let lte : acc.lte_actual ≡ acc.lte_actual + 0 = omega arith in
      let gte : acc.gte_actual ≡ acc.gte_actual + 0 = omega arith in
      λ i. record { trials = trials i; lte_actual = lte i; gte_actual = gte i }

  one_more : (b : Bool) (x n : ℕ) → (if b then x + 1 else x) + n ≡ x + (if b then n + 1 else n)
  one_more true x n = omega arith
  one_more false x n = refl

  tally-accumulate :
      (actual v : floats.Float) (vs : List floats.Float) (acc : ResultAccumulator)
      → tally actual vs (accumulate floats names actual v acc) ≡ tally actual (v ∷ vs) acc
  unfolding tally count_if accumulate
  tally-accumulate actual v vs acc =
      let trials : acc.trials + 1 + length vs ≡ acc.trials + suc (length vs) = omega arith in
      λ i. record {
        trials = trials i;
        lte_actual =
            one_more (floats.fle v actual) acc.lte_actual (count_if (λ u. floats.fle u actual) vs)
              i;
        gte_actual =
            one_more (floats.fle actual v) acc.gte_actual (count_if (λ u. floats.fle actual u) vs)
              i;
      }

  -- Every statistic of the actual data has an accumulator.
  unfoldable pub Covers : FloatDict floats names → Accumulators floats names → Type 0
  Covers actual_stats accumulators =
      (name : names.Name) (actual : floats.Float)
      → dict_get names.same name actual_stats ≡ some actual
      → (acc : ResultAccumulator) × (dict_get names.same name accumulators ≡ some acc)

  -- Every name of the sample is one of the actual data.
  abbrev pub IsSample : FloatDict floats names → FloatDict floats names → Type 0
  IsSample actual_stats =
      All
        (λ item. (actual : floats.Float) × (dict_get names.same item.0 actual_stats ≡ some actual))

  -- One item: the accumulator of its name, and of any other.
  after_item :
      (k : names.Name) (acc : ResultAccumulator) (accs : Accumulators floats names)
      → Accumulators floats names
  after_item k acc accs = dict_set names.same k acc accs

  Covers-after_item :
      (actual_stats : FloatDict floats names) (k : names.Name) (acc : ResultAccumulator)
      (accs : Accumulators floats names)
      → Covers actual_stats accs
      → Covers actual_stats (after_item k acc accs)
  unfolding Covers after_item
  Covers-after_item actual_stats k acc accs covers name actual known =
      elim (Bool-cases (names.same name k)) [
        | inl same ↦ (
          acc,
          ap (λ t. dict_get names.same t (dict_set names.same k acc accs))
                ((names.same_iff name k).0 same)
              ∙ dict_get-dict_set names k acc accs,
        )
        | inr apart ↦
            let (old, found) = covers name actual known in
            (old, dict_get-dict_set_other names name k acc accs apart ∙ found)
      ]

  -- What the counting of a sample makes of the accumulators.
  pub IsCounted :
      FloatDict floats names
      → FloatDict floats names
      → Accumulators floats names
      → Accumulators floats names
      → Type 0
  IsCounted actual_stats sample accs accs' =
      (name : names.Name) (actual : floats.Float) (acc : ResultAccumulator)
      → dict_get names.same name actual_stats ≡ some actual
      → dict_get names.same name accs ≡ some acc
      → dict_get names.same name accs' ≡ some (tally actual (values_of name sample) acc)

  count_sample-cons :
      (actual_stats : FloatDict floats names) (item : names.Name × floats.Float)
      (sample : FloatDict floats names) (accs : Accumulators floats names) (actual : floats.Float)
      (acc : ResultAccumulator)
      → dict_get names.same item.0 actual_stats ≡ some actual
      → dict_get names.same item.0 accs ≡ some acc
      → count_sample floats names actual_stats (item ∷ sample) accs
        ≡ count_sample floats names actual_stats sample
            (after_item item.0 (accumulate floats names actual item.1 acc) accs)
  unfolding count_sample after_item
  count_sample-cons actual_stats item sample accs actual acc known found =
      rw
        (
          dict_item-some names item.0 actual actual_stats known,
          dict_item-some names item.0 acc accs found,
        )
        refl

  IsCounted-cons :
      (actual_stats : FloatDict floats names) (item : names.Name × floats.Float)
      (sample : FloatDict floats names) (accs accs' : Accumulators floats names)
      (here : floats.Float) (old : ResultAccumulator)
      → dict_get names.same item.0 actual_stats ≡ some here
      → dict_get names.same item.0 accs ≡ some old
      → IsCounted actual_stats sample
          (after_item item.0 (accumulate floats names here item.1 old) accs)
          accs'
      → IsCounted actual_stats (item ∷ sample) accs accs'
  unfolding IsCounted after_item values_of
  IsCounted-cons actual_stats item sample accs accs' here old known_here found_old rest name actual
        acc known found =
      elim (Bool-cases (names.same name item.0)) [
        | inl same ↦
            let there : name ≡ item.0 = (names.same_iff name item.0).0 same in
            let stored =
              dict_get-dict_set names item.0 (accumulate floats names here item.1 old) accs in
            let now : dict_get names.same name
                  (dict_set names.same item.0 (accumulate floats names here item.1 old) accs)
                ≡ some (accumulate floats names actual item.1 acc) =
              cc in
            rw same (
              rest name actual (accumulate floats names actual item.1 acc) known now
              ∙ ap some (tally-accumulate actual item.1 (values_of name sample) acc))
        | inr apart ↦ rw apart (
            rest name actual acc known (
              dict_get-dict_set_other names name item.0 (accumulate floats names here item.1 old)
                accs apart
              ∙ found))
      ]

  -- After a sample, counted from the accumulators `accs`.
  pub record IsCount (actual_stats : FloatDict floats names) (sample : FloatDict floats names)
      (accs accs' : Accumulators floats names) : Type 0 where
    pub counted : IsCounted actual_stats sample accs accs'
    pub covers : Covers actual_stats accs'

  IsCounted_none :
      (actual_stats : FloatDict floats names) (accs : Accumulators floats names)
      → IsCounted actual_stats [] accs accs
  unfolding IsCounted values_of
  IsCounted_none actual_stats accs name actual acc known found =
      found ∙ ap some (tally_none actual acc)

  -- For a sample whose names all are names of the actual data, and accumulators for all of those,
  -- count_sample raises no KeyError, and the accumulator of each name then has counted the values
  -- of that name: all of them, those at most the actual value, and those at least the actual value.
  pub count_sample-IsCount :
      (actual_stats sample : FloatDict floats names) (accs : Accumulators floats names)
      → Covers actual_stats accs
      → IsSample actual_stats sample
      → (accs' : Accumulators floats names) × (count_sample floats names actual_stats sample accs
          ≡ ok accs')
        × IsCount actual_stats sample accs accs'
  unfolding Covers
  count_sample-IsCount actual_stats [] accs covers known = (
    accs,
    unfold count_sample in refl,
    record { counted = IsCounted_none actual_stats accs; covers = covers },
  )
  count_sample-IsCount actual_stats (item ∷ sample) accs covers known =
      let (actual, here) = known.0 in
      let (acc, found) = covers item.0 actual here in
      let now = accumulate floats names actual item.1 acc in
      let (accs', runs, is) =
        count_sample-IsCount actual_stats sample (after_item item.0 now accs)
          (Covers-after_item actual_stats item.0 now accs covers) known.1 in
      (
        accs',
        count_sample-cons actual_stats item sample accs actual acc here found ∙ runs,
        record {
          counted =
              IsCounted-cons actual_stats item sample accs accs' actual acc here found is.counted;
          covers = is.covers;
        },
      )

  count_if-le : (test : floats.Float → Bool) (vs : List floats.Float) → count_if test vs ≤ length vs
  unfolding count_if
  count_if-le test [] = omega arith
  count_if-le test (v ∷ vs) = elim (Bool-cases (test v)) [
    | inl passes ↦ rw passes (omega (arith, count_if-le test vs))
    | inr fails ↦ rw fails (omega (arith, count_if-le test vs))
  ]

  -- What csm asserts of a count of successes.
  pub record IsTally (acc : ResultAccumulator) : Type 0 where
    pub lte : acc.lte_actual ≤ acc.trials
    pub gte : acc.gte_actual ≤ acc.trials

  -- The counts never exceed the trials, whatever the values: this is what csm asserts of them.
  pub tally-IsTally :
      (actual : floats.Float) (vs : List floats.Float) (acc : ResultAccumulator)
      → IsTally acc
      → IsTally (tally actual vs acc)
  unfolding tally
  tally-IsTally actual vs acc h = record {
    lte = omega (arith, h.lte, count_if-le (λ v. floats.fle v actual) vs);
    gte = omega (arith, h.gte, count_if-le (λ v. floats.fle actual v) vs);
  }
