-- ===== src/Sampler/Requests.antt =====
-- The requests of t/exact_test_sampler.py: how the stream of analysis requests updates the data and the
-- parameters of an analysis.
pub mod Ready
use umash.Prelude.{
  ℕ, Bool, true, false, ◌&&◌, ◌||◌, not, Option, none, some, List, [], ◌∷◌, if◌then◌else◌,
}
use umash.Python.{Result, ok, raise, ◌>>=◌, Error}
use umash.Sampler.Statistics.{Sample}

-- AnalysisRequest, with its raw_data and the pickled parameters.
pub record AnalysisRequest : Type 0 where
  pub a_values : List ℕ
  pub b_values : List ℕ
  pub parameters : List ℕ

-- ExactTestParameters; the events are whether they are set, and the lock is held for each request.
pub record ExactTestParameters (Params : Type 0) : Type 0 where
  pub done : Bool
  pub ready : Bool
  pub sample : Option Sample
  pub params : Option Params

abbrev pub no_parameters : {Params : Type 0} → ExactTestParameters Params
no_parameters = record { done = false; ready = false; sample = none; params = none }

abbrev pub is_empty {ℓ} : {A : Type ℓ} → List A → Bool
is_empty [] = true
is_empty (x ∷ xs) = false

abbrev pub is_set {ℓ} : {A : Type ℓ} → Option A → Bool
is_set none = false
is_set (some x) = true

module _ {Params : Type 0} (loads : List ℕ → Result Params) where
  -- The sample after a request.
  unfoldable pub new_sample : AnalysisRequest → Option Sample → Option Sample
  new_sample r sample =
      if not (is_empty r.a_values) || not (is_empty r.b_values)
      then some (record { a_class = r.a_values; b_class = r.b_values })
      else sample

  -- params.params after a request; pickle.loads may raise.
  unfoldable pub new_params : AnalysisRequest → Option Params → Result (Option Params)
  new_params r params =
      if is_empty r.parameters
      then ok params
      else (loads r.parameters >>= λ loaded. ok (some loaded))

  -- The body of the loop for one request: the parameters as they are when it ends, and the exception if
  -- one ends it.
  unfoldable pub update :
      AnalysisRequest → ExactTestParameters Params → ExactTestParameters Params × Option Error
  update r p =
      let sample = new_sample r p.sample in
      elim (new_params r p.params) [
        | ok params ↦ (
          record {
            done = p.done;
            ready = p.ready || (is_set sample && is_set params);
            sample = sample;
            params = params;
          },
          none,
        )
        | raise error ↦ (
          record { done = p.done; ready = p.ready; sample = sample; params = p.params },
          some error,
        )
      ]

  -- The loop over the requests, each with whether the context was inactive when it came.
  unfoldable pub update_requests :
      List (AnalysisRequest × Bool)
      → ExactTestParameters Params
      → ExactTestParameters Params × Option Error
  update_requests [] p = (p, none)
  update_requests (request ∷ requests) p =
      if request.1
      then (p, none)
      else (let updated = update request.0 p in
          elim updated.1 [
            | none ↦ update_requests requests updated.0
            | some error ↦ (updated.0, some error)
          ])

  -- mark_cancelled, and the `finally` of the method: both events are set.
  unfoldable pub mark_cancelled : ExactTestParameters Params → ExactTestParameters Params
  mark_cancelled p = record { done = true; ready = true; sample = p.sample; params = p.params }

  -- _update_test_params
  unfoldable pub update_test_params :
      List (AnalysisRequest × Bool)
      → ExactTestParameters Params
      → ExactTestParameters Params × Option Error
  update_test_params requests p =
      let ended = update_requests requests p in (mark_cancelled ended.0, ended.1)
