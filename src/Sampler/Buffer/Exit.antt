-- ===== src/Sampler/Buffer/Exit.antt =====
-- When __exit__ of a BufferedIterator has returned, its workers end, as the queue has room enough.
use umash.Prelude.{
  ℕ, zero, suc, ◌+◌, ◌*◌, ◌≤◌, ◌<◌, ◌≡◌, ◌≢◌, refl, sym, ap, subst, ◌∙◌, ◌⊎◌, inl, inr, Bool, true,
  Bool-cases, length, arith,
}
use native.Mathlib.Decide.{dec_lt}
use umash.Prelude.Family.{update, total, total-update, total-le, weight-le-total}
use umash.Python.{Gen}
use umash.Sampler.Buffer.{
  capacity, Shared, Pc, pulling, got, putting, checking, ending, waking, ended, Move, pull, exhaust,
  crash, stop_early, go_on, put, break_off, again, set_done, wake, ReaderPc, reading, closing,
  exiting, draining, joining, State, entered, Step, work, get, leave, wake_reader, next_worker,
  drain, drained, find_empty, join, Reach, start, later,
}
use umash.Sampler.Buffer.Winds.{credit, credit_bound, rank, rank_bound, length-put_none, Move-Winds}
use umash.Sampler.Buffer.Budget.{Within, Budget, Budget-mono, drained_budget}

square : (n : ℕ) → 2 * n ≤ n * n + 1
square zero = omega arith
square (suc zero) = omega arith
square (suc (suc n)) = grind arith

module _ {V : Type 0} where
  -- The entries that are in the queue or may yet come.
  abbrev load : ℕ → State V → ℕ
  load n s = length s.shared.queue + total credit n s.pc

  record Inv (n : ℕ) (s : State V) : Type 0 where
    fits : length s.shared.queue ≤ capacity n
    closed : (s.reader ≡ reading) ⊎ (s.shared.done ≡ true)
    budget : Budget n s.reader (load n s)

  module _ (n : ℕ) (s : State V) (inv : Inv n s) where
    worker-Inv :
        {m : Shared V} {p : Pc V} (i : ℕ)
        → i < n
        → Move (capacity n) s.shared (s.pc i) m p
        → Inv n (record s { shared = m; pc = update s.pc i p })
    worker-Inv {m} {p} i h mv =
        let winds = Move-Winds mv inv.fits in
        elim inv.closed [
          | inl e ↦ record {
            fits = winds.fits;
            closed = inl e;
            budget =
                subst (λ r. Budget n r (length m.queue + total credit n (update s.pc i p))) (sym e)
                  tt;
          }
          | inr d ↦ record {
            fits = winds.fits;
            closed = inr (winds.grows d);
            budget =
                Budget-mono n s.reader (load n s)
                  (length m.queue + total credit n (update s.pc i p))
                  (omega (arith, winds.counted d, total-update credit n s.pc i p h)) inv.budget;
          }
        ]

    -- The same of a step of the reader.
    reader-Inv :
        (t : State V)
        → length t.shared.queue ≤ capacity n
        → (t.reader ≡ reading) ⊎ (t.shared.done ≡ true)
        → Budget n t.reader (load n t)
        → Inv n t
    reader-Inv t h k b = record { fits = h; closed = k; budget = b }

    Budget-reader : (r : ReaderPc) → s.reader ≡ r → Budget n r (load n s)
    Budget-reader r e = subst (λ r. Budget n r (load n s)) e inv.budget

    closed_past : (r : ReaderPc) → s.reader ≡ r → r ≢ reading → s.shared.done ≡ true
    closed_past r e h = elim inv.closed [ inl k ↦ absurd (h (sym e ∙ k)) | inr k ↦ k ]

    Step-Inv : {block_on_exit : Bool} {t : State V} → Step n block_on_exit s t → Inv n t
    Step-Inv (work i h mv) = worker-Inv i h mv
    Step-Inv (get {x} {q} e h) =
        reader-Inv _ (omega (arith, inv.fits, ap length h)) (inl e)
          (subst (λ r. Budget n r (length q + total credit n s.pc)) (sym e) tt)
    Step-Inv (leave e) = reader-Inv _ inv.fits (inr refl) tt
    Step-Inv (wake_reader e) =
        reader-Inv _ ((length-put_none (capacity n) s.shared.queue inv.fits).2)
          (inr (closed_past closing e (λ k. cc)))
          (inl (
            omega (
              arith,
              length-put_none (capacity n) s.shared.queue inv.fits,
              total-le credit 2 credit_bound n s.pc,
            )))
    Step-Inv (next_worker {k} e) =
        reader-Inv _ inv.fits (inr (closed_past (exiting (suc k)) e (λ k. cc)))
          (subst (Within n (load n s)) (grind arith) (Budget-reader (exiting (suc k)) e))
    Step-Inv (drain {k} {j} {x} {q} e h) =
        let before = Budget-reader (draining k (suc j)) e in
        reader-Inv _ (omega (arith, inv.fits, ap length h))
          (inr (closed_past (draining k (suc j)) e (λ k. cc)))
          (drained_budget n (k * n + j) (load n s) (length q + total credit n s.pc)
            (omega (arith, ap length h)) (subst (Within n (load n s)) (omega arith) before))
    Step-Inv (drained {k} e) =
        reader-Inv _ inv.fits (inr (closed_past (draining k 0) e (λ k. cc)))
          (subst (Within n (load n s)) (omega arith) (Budget-reader (draining k 0) e))
    Step-Inv (find_empty {k} {j} e h) =
        reader-Inv _ inv.fits (inr (closed_past (draining k (suc j)) e (λ k. cc)))
          (inr (omega (arith, ap length h, total-le credit 2 credit_bound n s.pc)))
    Step-Inv (join {k} e h) =
        reader-Inv _ inv.fits (inr (closed_past (joining k) e (λ k. cc)))
          (Budget-reader (joining k) e)

  Reach-Inv :
      {n : ℕ} {block_on_exit : Bool} {iterators : ℕ → Gen V} {s : State V}
      → Reach n block_on_exit iterators s
      → Inv n s
  unfolding entered
  Reach-Inv start = record { fits = omega arith; closed = inl refl; budget = tt }
  Reach-Inv {n} (later {s} r step) = Step-Inv n s (Reach-Inv r) step

  -- A number of steps in a row.
  pub data Steps (n : ℕ) (block_on_exit : Bool) (s : State V) : ℕ → State V → Type 0 where
    halt : Steps n block_on_exit s 0 s
    more :
        {count : ℕ} {t u : State V}
        → Steps n block_on_exit s count t
        → Step n block_on_exit t u
        → Steps n block_on_exit s (suc count) u

  -- Where __exit__ has returned.
  unfoldable pub HasExited : State V → Type 0
  HasExited s = s.reader ≡ exiting 0

  -- Then only the workers make steps, each towards its end.
  exited-Step :
      (n : ℕ) (s : State V) {block_on_exit : Bool} {t : State V}
      → Inv n s
      → s.reader ≡ exiting 0
      → Step n block_on_exit s t
      → (t.reader ≡ exiting 0) × (total rank n t.pc < total rank n s.pc)
  exited-Step n s inv e (work i {m} {p} h mv) =
      let done = closed_past n s inv (exiting 0) e (λ k. cc) in
      let winds = Move-Winds mv inv.fits in
      (e, omega (arith, winds.nearer done, total-update rank n s.pc i p h))
  exited-Step n s inv e (get k h) = cc
  exited-Step n s inv e (leave k) = cc
  exited-Step n s inv e (wake_reader k) = cc
  exited-Step n s inv e (next_worker k) = cc
  exited-Step n s inv e (drain k h) = cc
  exited-Step n s inv e (drained k) = cc
  exited-Step n s inv e (find_empty k h) = cc
  exited-Step n s inv e (join k h) = cc

  -- A worker whose iterator goes on, or that waits for room, has a move.
  pc-Move :
      (n : ℕ) (m : Shared V) (p : Pc V)
      → length m.queue + credit p ≤ capacity n + 1
      → (p ≡ ended) ⊎ ((m' : Shared V) × (p' : Pc V) × Move (capacity n) m p m' p')
  pc-Move n m (pulling Gen.stop) h = inr (_, _, exhaust)
  pc-Move n m (pulling (Gen.fail e)) h = inr (_, _, crash)
  pc-Move n m (pulling (Gen.yield v g)) h = inr (_, _, pull)
  pc-Move n m (got v g) h = elim (Bool-cases m.done) [
    | inl d ↦ inr (_, _, stop_early d)
    | inr d ↦ inr (_, _, go_on d)
  ]
  pc-Move n m (putting v g) h = inr (_, _, put (omega arith))
  pc-Move n m (checking g) h = elim (Bool-cases m.done) [
    | inl d ↦ inr (_, _, break_off d)
    | inr d ↦ inr (_, _, again d)
  ]
  pc-Move n m ending h = inr (_, _, set_done)
  pc-Move n m waking h = inr (_, _, wake)
  pc-Move n m ended h = inl refl

  -- The first k workers have ended, or there is a step.
  step_among :
      (n : ℕ) (block_on_exit : Bool) (s : State V)
      → load n s ≤ capacity n + 1
      → (k : ℕ) → k ≤ n
      → ((i : ℕ) → i < k → s.pc i ≡ ended) ⊎ ((t : State V) × Step n block_on_exit s t)
  step_among n block_on_exit s h zero le = inl (λ i lt. absurd (omega arith))
  step_among n block_on_exit s h (suc k) le =
      elim (pc-Move n s.shared (s.pc k)
        (omega (arith, h, weight-le-total credit n s.pc k (omega arith)))) [
          | inr (m, p, mv) ↦ inr (_, work k (omega arith) mv)
          | inl last ↦ elim (step_among n block_on_exit s h k (omega arith)) [
            | inr found ↦ inr found
            | inl rest ↦ inl (λ i lt. elim (dec_lt i k) [
              | yes below ↦ rest i below
              | no above ↦ subst (λ i. s.pc i ≡ ended) (omega arith) last
            ])
          ]
        ]

  exited_load : (n : ℕ) (s : State V) → Inv n s → s.reader ≡ exiting 0 → load n s ≤ capacity n + 1
  exited_load n s inv e = elim (Budget-reader n s inv (exiting 0) e) [
    | inr small ↦ small
    | inl k ↦ omega (arith, k, square n)
  ]

  exited-Steps :
      (n : ℕ) (s : State V) {block_on_exit : Bool} {count : ℕ} {t : State V}
      → Inv n s
      → s.reader ≡ exiting 0
      → Steps n block_on_exit s count t
      → Inv n t × (t.reader ≡ exiting 0) × (count + total rank n t.pc ≤ total rank n s.pc)
  exited-Steps n s inv e halt = (inv, e, omega arith)
  exited-Steps n s inv e (more {t} steps step) =
      let (inv', e', spent) = exited-Steps n s inv e steps in
      let (e'', less) = exited-Step n t inv' e' step in (Step-Inv n t inv' step, e'', omega arith)

  -- From where __exit__ has returned, whether it waited for the workers or not, the threads of n workers
  -- make at most 4 * n steps, and they never block: there is a next step until all workers have ended.
  pub exited_ends :
      {n : ℕ} {block_on_exit : Bool} {iterators : ℕ → Gen V} {s : State V}
      → Reach n block_on_exit iterators s
      → HasExited s
      → (count : ℕ) (t : State V) → Steps n block_on_exit s count t
      → (count ≤ 4 * n)
        × (((i : ℕ) → i < n → t.pc i ≡ ended) ⊎ ((u : State V) × Step n block_on_exit t u))
  unfolding HasExited
  exited_ends {n} {block_on_exit} {s} r e count t steps =
      let (inv, e', spent) = exited-Steps n s (Reach-Inv r) e steps in
      (
        omega (arith, total-le rank 4 rank_bound n s.pc),
        step_among n block_on_exit t (exited_load n t inv e') n (omega arith),
      )
