-- ===== src/Sampler/Buffer/Order.antt =====
-- What comes out of the queue of a BufferedIterator: the values of each iterator, in its order.
use mathlib.Core.List.{append_assoc, append-nil}
use native.Mathlib.Decide.{ℕ_discrete}
use umash.Prelude.{
  ℕ, suc, ◌≡◌, ◌≢◌, refl, sym, ap, ap₂, subst, ◌∙◌, ◌⊎◌, inl, inr, ltb, Bool, true, false,
  Bool-cases, Option, none, List, [], ◌∷◌, ◌++◌, ◌||◌, length, arith,
}
use umash.Prelude.Family.{update}
use umash.Python.{Gen}
use umash.Sampler.Buffer.{
  capacity, Shared, put_none, Pc, ended, reading, closing, exiting, draining, joining, Move,
  ReaderPc, State, entered, Step, work, get, leave, wake_reader, next_worker, drain, drained,
  find_empty, join, Reach, start, later,
}
use umash.Sampler.Buffer.Log.{
  items, labelled, has_none, has_none-append, labelled-append, IsLabelled, Left, Left-mono, Moved,
  Move-Moved,
}

module _ {V : Type 0} (label : V → ℕ) where
  -- All that has ever been put into the queue.
  abbrev pub log : State V → List (Option V)
  log s = s.removed ++ s.shared.queue

  module _ (iterators : ℕ → Gen V) where
    -- What one iterator has yielded so far is what was put for it, and the rest is its worker's.
    record Ordered (s : State V) (i : ℕ) : Type 0 where
      rest : List V
      split : labelled label i (log s) ++ rest ≡ items (iterators i)
      left : Left s.shared.done (s.pc i) rest

    record Inv (s : State V) : Type 0 where
      ordered : (i : ℕ) → Ordered s i
      marked : s.shared.done ≡ false → has_none (log s) ≡ false
      closed : (s.reader ≡ reading) ⊎ (s.shared.done ≡ true)

    IsLabelled-right :
        (i : ℕ) (vs rest : List V) → IsLabelled label i (vs ++ rest) → IsLabelled label i rest
    IsLabelled-right i [] rest h = h
    IsLabelled-right i (v ∷ vs) rest h = IsLabelled-right i vs rest (h.1)

    module _ (given : (i : ℕ) → IsLabelled label i (items (iterators i))) (s : State V)
        (inv : Inv s) where
      worker_log :
          {m : Shared V} {i : ℕ} {rest : List V} {p : Pc V}
          (moved : Moved label s.shared m i rest p)
          → s.removed ++ m.queue ≡ log s ++ moved.adds.added
      worker_log moved =
          ap (λ q. s.removed ++ q) moved.adds.queue
          ∙ sym (append_assoc s.removed s.shared.queue moved.adds.added)

      mover-Ordered :
          {m : Shared V} {p : Pc V} (i : ℕ)
          (moved : Moved label s.shared m i ((inv.ordered i).rest) p)
          → Ordered (record s { shared = m; pc = update s.pc i p }) i
      mover-Ordered {m} {p} i moved = record {
        rest = moved.rest';
        split =
            ap (λ q. labelled label i q ++ moved.rest') (worker_log moved)
            ∙ ap (λ q. q ++ moved.rest') (labelled-append label i (log s) moved.adds.added)
            ∙ append_assoc (labelled label i (log s)) (labelled label i moved.adds.added)
                moved.rest'
            ∙ ap (λ q. labelled label i (log s) ++ q) moved.adds.own
            ∙ (inv.ordered i).split;
        left = subst (λ q. Left m.done q moved.rest') (ground arith) moved.left;
      }

      other-Ordered :
          {m : Shared V} {p : Pc V} {rest : List V} (i : ℕ)
          (moved : Moved label s.shared m i rest p)
          → (j : ℕ) → i ≢ j
          → Ordered (record s { shared = m; pc = update s.pc i p }) j
      other-Ordered {m} {p} i moved j apart =
          let o = inv.ordered j in
          record {
            rest = o.rest;
            split =
                ap (λ q. labelled label j q ++ o.rest) (worker_log moved)
                ∙ ap (λ q. q ++ o.rest)
                    (labelled-append label j (log s) moved.adds.added
                      ∙ ap (λ q. labelled label j (log s) ++ q) (moved.adds.others j apart)
                      ∙ append-nil (labelled label j (log s)))
                ∙ o.split;
            left =
                subst (λ q. Left m.done q o.rest) (ground arith)
                  (Left-mono s.shared.done m.done (s.pc j) o.rest moved.adds.grows o.left);
          }

      worker-marked :
          {m : Shared V} {p : Pc V} {rest : List V} (i : ℕ)
          (moved : Moved label s.shared m i rest p)
          → m.done ≡ false
          → has_none (s.removed ++ m.queue) ≡ false
      worker-marked {m} i moved h =
          let before : s.shared.done ≡ false = ground (arith, moved.adds.grows) in
          ap has_none (worker_log moved)
          ∙ has_none-append (log s) moved.adds.added
          ∙ ap₂ ◌||◌ (inv.marked before) (moved.adds.marks h)

      worker-closed :
          {m : Shared V} {p : Pc V} {rest : List V} (i : ℕ)
          (moved : Moved label s.shared m i rest p)
          → (s.reader ≡ reading) ⊎ (m.done ≡ true)
      worker-closed i moved = elim inv.closed [ inl h ↦ inl h | inr h ↦ inr (moved.adds.grows h) ]

      worker-Inv :
          {m : Shared V} {p : Pc V} {size : ℕ} (i : ℕ)
          → Move size s.shared (s.pc i) m p
          → Inv (record s { shared = m; pc = update s.pc i p })
      worker-Inv {m} {p} i mv =
          let o = inv.ordered i in
          let own : IsLabelled label i o.rest =
            IsLabelled-right i (labelled label i (log s)) o.rest
              (subst (IsLabelled label i) (sym o.split) (given i)) in
          let moved : Moved label s.shared m i o.rest p = Move-Moved label i o.rest mv o.left own in
          record {
            ordered = λ j. elim (ℕ_discrete i j) [
              | yes e ↦
                  subst (λ j. Ordered (record s { shared = m; pc = update s.pc i p }) j) e
                    (mover-Ordered i moved)
              | no apart ↦ other-Ordered i moved j apart
            ];
            marked = worker-marked i moved;
            closed = worker-closed i moved;
          }

      -- The same of a step of the reader, from what it does to the log.
      reader-Inv :
          (t : State V) (added : List (Option V))
          → t.pc ≡ s.pc
          → log t ≡ log s ++ added
          → ((j : ℕ) → labelled label j added ≡ [])
          → (s.shared.done ≡ true → t.shared.done ≡ true)
          → (t.shared.done ≡ false → has_none added ≡ false)
          → (t.reader ≡ reading) ⊎ (t.shared.done ≡ true)
          → Inv t
      reader-Inv t added same grown nothing grows marks closed = record {
        ordered = λ j.
            let o = inv.ordered j in
            record {
              rest = o.rest;
              split =
                  ap (λ q. labelled label j q ++ o.rest) grown
                  ∙ ap (λ q. q ++ o.rest)
                      (labelled-append label j (log s) added
                        ∙ ap (λ q. labelled label j (log s) ++ q) (nothing j)
                        ∙ append-nil (labelled label j (log s)))
                  ∙ o.split;
              left =
                  subst (λ q. Left t.shared.done (q j) o.rest) (sym same)
                    (Left-mono s.shared.done t.shared.done (s.pc j) o.rest grows o.left);
            };
        marked = λ h.
            let before : s.shared.done ≡ false = ground (arith, grows) in
            ap has_none grown
            ∙ has_none-append (log s) added
            ∙ ap₂ ◌||◌ (inv.marked before) (marks h);
        closed = closed;
      }

      quiet-Inv :
          (t : State V)
          → t.pc ≡ s.pc
          → log t ≡ log s
          → (s.shared.done ≡ true → t.shared.done ≡ true)
          → (t.reader ≡ reading) ⊎ (t.shared.done ≡ true)
          → Inv t
      unfolding labelled has_none
      quiet-Inv t same kept grows closed =
          reader-Inv t [] same (kept ∙ sym (append-nil (log s))) (λ j. refl) grows (λ h. refl)
            closed

      taken :
          (x : Option V) (q : List (Option V))
          → s.shared.queue ≡ x ∷ q
          → (s.removed ++ x ∷ []) ++ q ≡ log s
      taken x q e = append_assoc s.removed (x ∷ []) q ∙ ap (λ q. s.removed ++ q) (sym e)

      -- Past the body of the `with` statement, `done` is set.
      closed_past : (r : ReaderPc) → s.reader ≡ r → r ≢ reading → s.shared.done ≡ true
      closed_past r e h = elim inv.closed [ inl k ↦ absurd (h (sym e ∙ k)) | inr k ↦ k ]

      woken-Inv :
          (size n : ℕ)
          → s.shared.done ≡ true
          → Inv (record s {
            shared = record { queue = put_none size s.shared.queue; done = s.shared.done };
            reader = exiting n;
          })
      unfolding put_none labelled has_none
      woken-Inv size n h = elim (Bool-cases (ltb (length s.shared.queue) size)) [
        | inl k ↦ rw k (
            reader-Inv _ (none ∷ []) refl (sym (append_assoc s.removed s.shared.queue (none ∷ [])))
              (λ j. refl) (λ h. h) (λ k. cc) (inr h))
        | inr k ↦ rw k (quiet-Inv _ refl refl (λ h. h) (inr h))
      ]

      Step-Inv : {n : ℕ} {block_on_exit : Bool} {t : State V} → Step n block_on_exit s t → Inv t
      Step-Inv (work i h mv) = worker-Inv i mv
      Step-Inv (get {x} {q} e h) = quiet-Inv _ refl (taken x q h) (λ k. k) (inl e)
      Step-Inv (leave e) = quiet-Inv _ refl refl (λ k. refl) (inr refl)
      Step-Inv {n} (wake_reader e) = woken-Inv (capacity n) n (closed_past closing e (λ k. cc))
      Step-Inv (next_worker {k} e) =
          quiet-Inv _ refl refl (λ k. k) (inr (closed_past (exiting (suc k)) e (λ k. cc)))
      Step-Inv (drain {k} {j} {x} {q} e h) =
          quiet-Inv _ refl (taken x q h) (λ k. k)
            (inr (closed_past (draining k (suc j)) e (λ k. cc)))
      Step-Inv (drained {k} e) =
          quiet-Inv _ refl refl (λ k. k) (inr (closed_past (draining k 0) e (λ k. cc)))
      Step-Inv (find_empty {k} {j} e h) =
          quiet-Inv _ refl refl (λ k. k) (inr (closed_past (draining k (suc j)) e (λ k. cc)))
      Step-Inv (join {k} e h) =
          quiet-Inv _ refl refl (λ k. k) (inr (closed_past (joining k) e (λ k. cc)))

    -- What the taker of the values sees of iterator i.
    pub record IsDelivered (s : State V) (i : ℕ) : Type 0 where
      pub rest : List V
      pub in_order : labelled label i (s.removed ++ s.shared.queue) ++ rest ≡ items (iterators i)
      pub whole : s.pc i ≡ ended → (s.shared.done ≡ true) ⊎ (rest ≡ [])
      pub no_early_end : s.shared.done ≡ false → has_none (s.removed ++ s.shared.queue) ≡ false

    Reach-Inv :
        {n : ℕ} {block_on_exit : Bool} {s : State V}
        → ((i : ℕ) → IsLabelled label i (items (iterators i)))
        → Reach n block_on_exit iterators s
        → Inv s
    unfolding entered labelled has_none
    Reach-Inv given start = record {
      ordered = λ i. record { rest = items (iterators i); split = refl; left = refl };
      marked = λ h. refl;
      closed = inl refl;
    }
    Reach-Inv given (later {s} r step) = Step-Inv given s (Reach-Inv given r) step

    -- However the threads interleave, the values of each iterator, told apart by a label, come out of the
    -- queue in its order, with none lost or doubled on the way: what was taken out and what is queued are the
    -- first ones that it yields; all of them once its worker has ended, unless `done` was set; and no None
    -- is put before `done` is set.
    pub Reach-IsDelivered :
        {n : ℕ} {block_on_exit : Bool} {s : State V}
        → ((i : ℕ) → IsLabelled label i (items (iterators i)))
        → Reach n block_on_exit iterators s
        → (i : ℕ) → IsDelivered s i
    Reach-IsDelivered {s} given r i =
        let inv = Reach-Inv given r in
        let o = inv.ordered i in
        record {
          rest = o.rest;
          in_order = o.split;
          whole = λ e. subst (λ q. Left s.shared.done q o.rest) e o.left;
          no_early_end = inv.marked;
        }
