-- ===== src/Sampler/Resample.antt =====
-- resampled_data_results of t/exact_test_sampler.py: the reader that feeds the samplers with the plans of
-- the test and yields the values that they and it compute.
use umash.Prelude.{ℕ, zero, suc, Bool, true, false, Option, none, some, List, [], ◌∷◌, ◌++◌, map}
use umash.Python.{Result, ok, raise, Error}
use umash.Sampler.Statistics.{Sample}
use umash.Sampler.Requests.{AnalysisRequest}
use umash.Sampler.Convert.{StatisticValues, convert_proto_to_result_dicts}

-- A queue of requests for one sampler; None ends the iterator over it.
abbrev pub RequestQueue : Type 0
RequestQueue = List (Option AnalysisRequest)

-- The variables that the closures share.
pub record Session (P : Type 0) : Type 0 where
  pub request_queues : List RequestQueue
  pub cached_stats : Option P

-- reqqueue.put(req) for all queues.
unfoldable pub put_all : Option AnalysisRequest → List RequestQueue → List RequestQueue
put_all req request_queues = map (λ reqqueue. reqqueue ++ req ∷ []) request_queues

abbrev pub initial_req : Sample → AnalysisRequest
initial_req sample = record {
  a_values = sample.a_class;
  b_values = sample.b_class;
  parameters = [];
}

-- The queues of the samplers, with the initial request.
unfoldable pub initial_queues : ℕ → Sample → List RequestQueue
initial_queues zero sample = []
initial_queues (suc samplers) sample =
    (some (initial_req sample) ∷ []) ∷ initial_queues samplers sample

-- What a get on the BufferedIterator returned in the inner loop: a None, or a batch, and then what
-- grouped_statistics_queue had.
pub data Got (Name V P : Type 0) : Type 0 where
  end : Got Name V P
  batch : List (StatisticValues Name V) → Option P → Got Name V P

-- How a loop ended: it goes on, the generator returns, or an exception leaves it.
pub data Ended : Type 0 where
  goes_on returns : Ended
  raises : Error → Ended

-- One round of the outer loop: what grouped_statistics_queue had when the serial generator asked, and the
-- gets of the inner loop, up to the one that found the buffer empty.
pub record Round (Name V P : Type 0) : Type 0 where
  pub stats : Option P
  pub gets : List (Got Name V P)

-- grouped_statistics_fn, with what the queue had: a plan, or none if it was empty.
unfoldable pub grouped_statistics_fn :
    {P : Type 0} → (P → List ℕ) → Option P → Session P → Session P
grouped_statistics_fn dumps none s = s
grouped_statistics_fn dumps (some plan) s = record {
  request_queues =
      put_all (some (record { a_values = []; b_values = []; parameters = dumps plan }))
        s.request_queues;
  cached_stats = some plan;
}

module _ {Name V P : Type 0} (same : Name → Name → Bool) (dumps : P → List ℕ) where
  -- The inner loop: what it yields, the variables, and how it ended.
  unfoldable pub read_loop :
      List (Got Name V P) → Session P → List (List (Name × V)) × Session P × Ended
  read_loop [] s = ([], s, goes_on)
  read_loop (end ∷ gets) s = ([], s, returns)
  read_loop (batch par_value stats ∷ gets) s = elim (convert_proto_to_result_dicts same par_value) [
    | raise error ↦ ([], s, raises error)
    | ok values ↦
        let rest = read_loop gets (grouped_statistics_fn dumps stats s) in
        (values ++ rest.0, rest.1, rest.2)
  ]

  -- The next value of the serial generator: its n-th one, drawn under the plan that is there after a look
  -- into the queue. A new plan restarts _resampled_data_results_1.
  module _ (draw : ℕ → Option P → Result (List (Name × V))) where
    -- The outer loop, for the given rounds, from the n-th value on.
    unfoldable pub value_loop :
        Bool → ℕ → List (Round Name V P) → Session P → List (List (Name × V)) × Session P × Ended
    value_loop inline_eval n [] s = ([], s, goes_on)
    value_loop true n (round ∷ rounds) s =
        let asked = grouped_statistics_fn dumps round.stats s in
        elim (draw n asked.cached_stats) [
          | raise error ↦ ([], asked, raises error)
          | ok value ↦
              let read = read_loop round.gets asked in
              elim (read.2) [
                | goes_on ↦
                    let rest = value_loop true (suc n) rounds (read.1) in
                    (value ∷ (read.0 ++ rest.0), rest.1, rest.2)
                | other ↦ (value ∷ read.0, read.1, read.2)
              ]
        ]
    value_loop false n (round ∷ rounds) s =
        let read = read_loop round.gets s in
        elim (read.2) [
          | goes_on ↦
              let rest = value_loop false (suc n) rounds (read.1) in
              (read.0 ++ rest.0, rest.1, rest.2)
          | other ↦ (read.0, read.1, read.2)
        ]

    -- From the connections on, with the plan of the first, blocking get; the two `finally` end each queue.
    unfoldable pub resampled_data_results :
        Bool → ℕ → Sample → P → List (Round Name V P) → List (List (Name × V)) × Session P × Ended
    resampled_data_results inline_eval samplers sample plan rounds =
        let begun =
          grouped_statistics_fn dumps (some plan)
            (record { request_queues = initial_queues samplers sample; cached_stats = none }) in
        let run = value_loop inline_eval 0 rounds begun in
        (
          run.0,
          record {
            request_queues = put_all none (put_all none (run.1).request_queues);
            cached_stats = (run.1).cached_stats;
          },
          run.2,
        )
