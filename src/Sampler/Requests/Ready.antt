-- ===== src/Sampler/Requests/Ready.antt =====
-- When an analysis is ready: exactly when its data and its parameters are both there.
use umash.Prelude.{
  ℕ, ◌≡◌, refl, ap, ◌∙◌, ◌⊎◌, inl, inr, Bool, true, false, Bool-cases, ◌&&◌, ◌||◌, not, Option,
  none, some, List, [], ◌∷◌, arith,
}
use umash.Python.{Result, ok, raise, ◌>>=◌, Error}
use umash.Sampler.Statistics.{Sample}
use umash.Sampler.Requests.{
  AnalysisRequest, ExactTestParameters, is_empty, is_set, new_sample, new_params, update,
  update_requests,
}

module _ {Params : Type 0} (loads : List ℕ → Result Params) where
  -- While no one has cancelled, `ready` says that the sample and the parameters are there.
  unfoldable pub IsReady : ExactTestParameters Params → Type 0
  IsReady p = (p.done ≡ false) × (p.ready ≡ (is_set p.sample && is_set p.params))

  -- A sample that is there is not taken away, and neither are parameters.
  is_set-new_sample :
      (r : AnalysisRequest) (sample : Option Sample)
      → is_set sample ≡ true
      → is_set (new_sample loads r sample) ≡ true
  unfolding new_sample
  is_set-new_sample r sample h =
      elim (Bool-cases (not (is_empty r.a_values) || not (is_empty r.b_values))) [
        | inl k ↦ rw k refl
        | inr k ↦ rw k h
      ]

  kept : (params : Option Params) → (is_set params ≡ false) ⊎ (is_set params ≡ true)
  kept none = inl refl
  kept (some x) = inr refl

  -- Parameters, as they were or as they were loaded, or an exception.
  Outcome : Option Params → Result (Option Params) → Type 0
  Outcome params result =
      ((new : Option Params) × (result ≡ ok new) × ((is_set params ≡ false) ⊎ (is_set new ≡ true)))
      ⊎ ((error : Error) × (result ≡ raise error))

  loaded :
      (params : Option Params) (result : Result Params)
      → Outcome params (result >>= λ p. ok (some p))
  unfolding Outcome
  loaded params (ok p) = inl (some p, refl, inr refl)
  loaded params (raise error) = inr (error, refl)

  new_params-Outcome :
      (r : AnalysisRequest) (params : Option Params) → Outcome params (new_params loads r params)
  unfolding new_params Outcome
  new_params-Outcome r params = elim (Bool-cases (is_empty r.parameters)) [
    | inl k ↦ rw k (inl (params, refl, kept params))
    | inr k ↦ rw k (loaded params (loads r.parameters))
  ]

  ready_grows :
      (s q s' q' : Bool)
      → (s ≡ true → s' ≡ true)
      → (q ≡ false) ⊎ (q' ≡ true)
      → ((s && q) || (s' && q')) ≡ (s' && q')
  ready_grows s q s' q' h k = ground arith

  update-IsReady :
      (r : AnalysisRequest) (p : ExactTestParameters Params)
      → IsReady p
      → ((update loads r p).1 ≡ none) × IsReady ((update loads r p).0)
        ⊎ ((error : Error) × ((update loads r p).1 ≡ some error))
  unfolding IsReady update Outcome
  update-IsReady r p h = elim (new_params-Outcome r p.params) [
    | inl found ↦
        let (new, there, grows) = found in
        let ready : (p.ready || (is_set (new_sample loads r p.sample) && is_set new))
            ≡ (is_set (new_sample loads r p.sample) && is_set new) =
          ap (λ t. t || (is_set (new_sample loads r p.sample) && is_set new)) (h.1)
          ∙ ready_grows (is_set p.sample) (is_set p.params) (is_set (new_sample loads r p.sample))
              (is_set new) (is_set-new_sample r p.sample) grows in
        rw (there, update) (inl (refl, (h.0, ready)))
    | inr failed ↦ rw (failed.1, update) (inr (failed.0, refl))
  ]

  -- When a loop over requests, from parameters that were not cancelled, ends without an exception, it has
  -- marked the analysis as ready exactly if its data and its parameters are both there, whatever the
  -- requests were and wherever the context ended it.
  pub update_requests-IsReady :
      (requests : List (AnalysisRequest × Bool)) (p : ExactTestParameters Params)
      → IsReady p
      → ((update_requests loads requests p).1 ≡ none)
          × IsReady ((update_requests loads requests p).0)
        ⊎ ((error : Error) × ((update_requests loads requests p).1 ≡ some error))
  unfolding update_requests
  update_requests-IsReady [] p h = inl (refl, h)
  update_requests-IsReady (request ∷ requests) p h = elim (Bool-cases request.1) [
    | inl k ↦ rw k (inl (refl, h))
    | inr k ↦ elim (update-IsReady request.0 p h) [
      | inl updated ↦
          rw (k, updated.0, update_requests)
            (update_requests-IsReady requests ((update loads request.0 p).0) (updated.1))
      | inr failed ↦ rw (k, failed.1, update_requests) (inr (failed.0, refl))
    ]
  ]
