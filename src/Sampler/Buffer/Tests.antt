-- ===== src/Sampler/Buffer/Tests.antt =====
-- Runs of a BufferedIterator with two iterators.
use umash.Prelude.{
  ℕ, zero, suc, ◌*◌, ◌%◌, ◌<◌, ◌≤◌, ◌≡◌, ◌⊎◌, refl, false, List, [], ◌∷◌, arith, All,
}
use umash.Python.{Gen, from_list}
use umash.Sampler.Buffer.{
  State, entered, ended, closing, Step, work, get, leave, wake_reader, next_worker, find_empty,
  drain, join, pull, go_on, put, Reach, start, later, put_none,
}
use umash.Sampler.Buffer.Log.{items}
use umash.Sampler.Buffer.Order.{IsDelivered, Reach-IsDelivered}
use umash.Sampler.Buffer.Exit.{halt, HasExited, exited_ends}
use umash.Sampler.Buffer.Lost.{IsLost, end-IsLost}

-- An even number comes from the first iterator, an odd one from the second.
abbrev parity : ℕ → ℕ
parity v = v % 2

abbrev sources : ℕ → Gen ℕ
sources zero = from_list (4 ∷ [])
sources (suc zero) = from_list (7 ∷ 9 ∷ [])
sources (suc (suc i)) = Gen.stop

abbrev Run : Type 0
Run = (s : State ℕ) × Reach 2 false sources s

-- The second worker puts 7 in, the first 4, and 7 is taken out.
one_taken : Run
unfolding entered
one_taken =
    let r0 : Run = (_, start) in
    let r1 : Run = (_, later (r0.1) (work 1 (omega arith) pull)) in
    let r2 : Run = (_, later (r1.1) (work 1 (omega arith) (go_on refl))) in
    let r3 : Run = (_, later (r2.1) (work 1 (omega arith) (put (omega arith)))) in
    let r4 : Run = (_, later (r3.1) (work 0 (omega arith) pull)) in
    let r5 : Run = (_, later (r4.1) (work 0 (omega arith) (go_on refl))) in
    let r6 : Run = (_, later (r5.1) (work 0 (omega arith) (put (omega arith)))) in
    (_, later (r6.1) (get refl refl))

sources-labelled : (i : ℕ) → All (λ v. parity v ≡ i) (items (sources i))
sources-labelled zero = (refl, tt)
sources-labelled (suc zero) = (refl, (refl, tt))
sources-labelled (suc (suc i)) = tt

Reach-IsDelivered_example : IsDelivered parity sources (one_taken.0) 1
Reach-IsDelivered_example =
    Reach-IsDelivered parity sources {n = 2} {block_on_exit = false} sources-labelled (one_taken.1)
      1

-- The context is left at once, and the queue is found empty but for its None.
left : Run
unfolding entered put_none
left =
    let r0 : Run = (_, start) in
    let r1 : Run = (_, later (r0.1) (leave refl)) in
    let r2 : Run = (_, later (r1.1) (wake_reader refl)) in
    let r3 : Run = (_, later (r2.1) (next_worker refl)) in
    let r4 : Run = (_, later (r3.1) (drain refl refl)) in
    let r5 : Run = (_, later (r4.1) (find_empty refl refl)) in
    let r6 : Run = (_, later (r5.1) (join refl (λ e. cc))) in
    let r7 : Run = (_, later (r6.1) (next_worker refl)) in
    let r8 : Run = (_, later (r7.1) (find_empty refl refl)) in
    (_, later (r8.1) (join refl (λ e. cc)))

left-HasExited : HasExited (left.0)
unfolding left HasExited
left-HasExited = refl

exited_ends_example :
    (0 ≤ 4 * 2)
    × (((i : ℕ) → i < 2 → (left.0).pc i ≡ ended) ⊎ ((u : State ℕ) × Step 2 false (left.0) u))
exited_ends_example = exited_ends (left.1) left-HasExited 0 (left.0) halt

abbrev seven : List ℕ
seven = 1 ∷ 2 ∷ 3 ∷ 4 ∷ 5 ∷ 6 ∷ 7 ∷ []

end-IsLost_example :
    (s : State ℕ) × Reach 1 false (λ i. from_list seven) s
    × IsLost seven s
    × ((t : State ℕ) → Step 1 false s t → t.reader ≡ closing)
end-IsLost_example = end-IsLost false (λ i. from_list seven) seven refl (omega arith)
