-- ===== src/Sampler/Buffer/Lost.antt =====
-- How the end of an iterator is lost: with the queue full, the None of the worker is dropped.
use mathlib.Core.List.{append_assoc, append-nil, map-append}
use umash.Prelude.{
  ℕ, suc, ◌+◌, ◌-◌, ◌≤◌, ◌<◌, ◌≡◌, refl, sym, ap, subst, ◌∙◌, Bool, true, false, Option, some, List,
  [], ◌∷◌, ◌++◌, map, length, length-append, length-drop, length-map, take, drop, take-append-drop,
  arith,
}
use umash.Prelude.Family.{update}
use umash.Python.{Gen, from_list}
use umash.Sampler.Buffer.{
  capacity, Shared, put_none, Pc, pulling, ended, Move, pull, exhaust, crash, stop_early, go_on,
  put, break_off, again, set_done, wake, ReaderPc, reading, closing, exiting, draining, joining,
  State, entered, Step, work, get, leave, wake_reader, next_worker, drain, drained, find_empty,
  join, Reach, start, later,
}

-- The places of the reader but the first.
abbrev IsPast : ReaderPc → Type 0
IsPast reading = ⊥
IsPast _ = Unit

not_reading : {r : ReaderPc} (r' : ReaderPc) → IsPast r' → r ≡ reading → r ≡ r' → ⊥
not_reading r' past e e' = subst IsPast (sym e' ∙ e) past

nothing {ℓ} : {A : Type ℓ} {q r : List A} {x : A} → q ≡ [] → q ≡ x ∷ r → ⊥
nothing e e' = cc

-- All values were taken out, no None among them, and the worker has ended.
pub record IsLost {V : Type 0} (vs : List V) (s : State V) : Type 0 where
  pub reader_waits : s.reader ≡ reading
  pub all_taken : s.removed ≡ map some vs
  pub nothing_queued : s.shared.queue ≡ []
  pub worker_ended : s.pc 0 ≡ ended

module _ {V : Type 0} (block_on_exit : Bool) (iterators : ℕ → Gen V) where
  -- A reachable state of one worker, before __exit__, by what is in it.
  record Found (p : Pc V) (queue : List (Option V)) (done : Bool) (removed : List (Option V))
      : Type 0 where
    state : State V
    reach : Reach 1 block_on_exit iterators state
    shared_is : state.shared ≡ record { queue = queue; done = done }
    removed_is : state.removed ≡ removed
    pc_is : state.pc 0 ≡ p
    reader_is : state.reader ≡ reading

  moves :
      {p p' : Pc V} {m : Shared V} {queue removed : List (Option V)} {done : Bool}
      → Found p queue done removed
      → Move (capacity 1) (record { queue = queue; done = done }) p m p'
      → Found p' m.queue m.done removed
  moves {p} {p'} {m} {queue} {removed} {done} f mv =
      let there : Move (capacity 1) f.state.shared (f.state.pc 0) m p' =
        subst (λ q. Move (capacity 1) f.state.shared q m p') (sym f.pc_is)
          (subst (λ q. Move (capacity 1) q p m p') (sym f.shared_is) mv) in
      record {
        state = record f.state { shared = m; pc = update f.state.pc 0 p' };
        reach = later f.reach (work 0 (omega arith) there);
        shared_is = refl;
        removed_is = f.removed_is;
        pc_is = refl;
        reader_is = f.reader_is;
      }

  gets :
      {p : Pc V} {x : Option V} {queue removed : List (Option V)} {done : Bool}
      → Found p (x ∷ queue) done removed
      → Found p queue done (removed ++ x ∷ [])
  gets {p} {x} {queue} {removed} {done} f = record {
    state = record f.state {
      shared = record { queue = queue; done = f.state.shared.done };
      removed = f.state.removed ++ x ∷ [];
    };
    reach = later f.reach (get f.reader_is (ap (λ (s : Shared V). s.queue) f.shared_is));
    shared_is = ap (λ (s : Shared V). record { queue = queue; done = s.done }) f.shared_is;
    removed_is = ap (λ r. r ++ x ∷ []) f.removed_is;
    pc_is = f.pc_is;
    reader_is = f.reader_is;
  }

  -- One value on its way into the queue.
  puts :
      {v : V} {g : Gen V} {queue removed : List (Option V)}
      → Found (pulling (Gen.yield v g)) queue false removed
      → length queue < capacity 1
      → Found (pulling g) (queue ++ some v ∷ []) false removed
  puts f h = moves (moves (moves (moves f pull) (go_on refl)) (put h)) (again refl)

  -- Values that are taken out as soon as they are put in, and values that fill the queue.
  passes :
      (vs ws : List V) {removed : List (Option V)}
      → Found (pulling (from_list (vs ++ ws))) [] false removed
      → Found (pulling (from_list ws)) [] false (removed ++ map some vs)
  passes [] ws {removed} f =
      subst (λ r. Found (pulling (from_list ws)) [] false r) (sym (append-nil removed)) f
  passes (v ∷ vs) ws {removed} f =
      subst (λ r. Found (pulling (from_list ws)) [] false r)
        (append_assoc removed (some v ∷ []) (map some vs))
        (passes vs ws (gets (puts f (omega arith))))

  fills :
      (vs : List V) {queue removed : List (Option V)}
      → length queue + length vs ≤ capacity 1
      → Found (pulling (from_list vs)) queue false removed
      → Found (pulling Gen.stop) (queue ++ map some vs) false removed
  fills [] {queue} {removed} h f =
      subst (λ q. Found (pulling Gen.stop) q false removed) (sym (append-nil queue)) f
  fills (v ∷ vs) {queue} {removed} h f =
      subst (λ q. Found (pulling Gen.stop) q false removed)
        (append_assoc queue (some v ∷ []) (map some vs))
        (fills vs (omega (arith, h, length-append queue (some v ∷ []))) (puts f (omega arith)))

  empties :
      {p : Pc V} {done : Bool} (queue : List (Option V)) {removed : List (Option V)}
      → Found p queue done removed
      → Found p [] done (removed ++ queue)
  empties {p} {done} [] {removed} f = subst (λ r. Found p [] done r) (sym (append-nil removed)) f
  empties {p} {done} (x ∷ queue) {removed} f =
      subst (λ r. Found p [] done r) (append_assoc removed (x ∷ []) queue) (empties queue (gets f))

  -- The worker's None finds no room.
  ends :
      {queue removed : List (Option V)}
      → length queue ≡ capacity 1
      → Found (pulling Gen.stop) queue false removed
      → Found ended queue true removed
  unfolding put_none
  ends {queue} {removed} h f =
      let full : put_none (capacity 1) queue ≡ queue = ground arith in
      subst (λ q. Found ended q true removed) full (moves (moves (moves f exhaust) set_done) wake)

  not-Move : {size : ℕ} {m m' : Shared V} {p p' : Pc V} → p ≡ ended → Move size m p m' p' → ⊥
  not-Move e pull = cc
  not-Move e exhaust = cc
  not-Move e crash = cc
  not-Move e (stop_early h) = cc
  not-Move e (go_on h) = cc
  not-Move e (put h) = cc
  not-Move e (break_off h) = cc
  not-Move e (again h) = cc
  not-Move e set_done = cc
  not-Move e wake = cc

  -- There a get waits forever.
  only_leaves :
      (vs : List V) (s : State V) {t : State V}
      → IsLost vs s
      → Step 1 block_on_exit s t
      → t.reader ≡ closing
  only_leaves vs s lost (work i h mv) =
      let e : s.pc i ≡ ended = subst (λ i. s.pc i ≡ ended) (omega arith) lost.worker_ended in
      absurd (not-Move e mv)
  only_leaves vs s lost (get e h) = absurd (nothing lost.nothing_queued h)
  only_leaves vs s lost (leave e) = refl
  only_leaves vs s lost (wake_reader e) = absurd (not_reading closing tt lost.reader_waits e)
  only_leaves vs s lost (next_worker {k} e) =
      absurd (not_reading (exiting (suc k)) tt lost.reader_waits e)
  only_leaves vs s lost (drain {k} {j} e h) =
      absurd (not_reading (draining k (suc j)) tt lost.reader_waits e)
  only_leaves vs s lost (drained {k} e) = absurd (not_reading (draining k 0) tt lost.reader_waits e)
  only_leaves vs s lost (find_empty {k} {j} e h) =
      absurd (not_reading (draining k (suc j)) tt lost.reader_waits e)
  only_leaves vs s lost (join {k} e h) = absurd (not_reading (joining k) tt lost.reader_waits e)

  -- With one iterator that yields at least as many values as the queue holds, and then ends, the threads
  -- can come to a state where all values were taken out, but no None was put in and the worker has ended: a
  -- get there waits forever, as the only next step is to leave the context.
  pub end-IsLost :
      (vs : List V)
      → iterators 0 ≡ from_list vs
      → capacity 1 ≤ length vs
      → (s : State V) × Reach 1 block_on_exit iterators s
        × IsLost vs s
        × ((t : State V) → Step 1 block_on_exit s t → t.reader ≡ closing)
  unfolding entered
  end-IsLost vs e h =
      let k : ℕ = length vs - capacity 1 in
      let first = take k vs in
      let last = drop k vs in
      let size : length last ≡ capacity 1 = omega (arith, length-drop k vs) in
      let begun : Found (pulling (from_list (first ++ last))) [] false [] = record {
        state = entered iterators;
        reach = start;
        shared_is = refl;
        removed_is = refl;
        pc_is = ap pulling (e ∙ ap from_list (sym (take-append-drop k vs)));
        reader_is = refl;
      } in
      let full = fills last {queue = []} (omega arith) (passes first last begun) in
      let f = empties (map some last) (ends (length-map some last ∙ size) full) in
      let lost : IsLost vs f.state = record {
        reader_waits = f.reader_is;
        all_taken =
            f.removed_is ∙ sym (map-append some first last) ∙ ap (map some) (take-append-drop k vs);
        nothing_queued = ap (λ (s : Shared V). s.queue) f.shared_is;
        worker_ended = f.pc_is;
      } in
      (f.state, f.reach, lost, λ t step. only_leaves vs f.state lost step)
