-- ===== src/Sampler/Buffer/Log.antt =====
-- What each move of a worker of a BufferedIterator adds to the queue.
use mathlib.Core.List.{append-nil}
use umash.Prelude.{
  ℕ, ◌≡◌, ◌≢◌, refl, sym, subst, ◌⊎◌, inl, inr, ltb, ◌==◌, Bool, true, false, Bool-cases, Option,
  none, some, List, [], ◌∷◌, ◌++◌, ◌||◌, All, length, if◌then◌else◌, arith,
}
use umash.Python.{Gen}
use umash.Sampler.Buffer.{
  Shared, put_none, Pc, pulling, got, putting, checking, ending, waking, ended, Move, pull, exhaust,
  crash, stop_early, go_on, put, break_off, again, set_done, wake,
}

-- The values that an iterator yields.
abbrev pub items : {V : Type 0} → Gen V → List V
items Gen.stop = []
items (Gen.fail e) = []
items (Gen.yield v g) = v ∷ items g

module _ {V : Type 0} where
  -- Whether there is a None.
  unfoldable pub has_none : List (Option V) → Bool
  has_none [] = false
  has_none (none ∷ q) = true
  has_none (some v ∷ q) = has_none q

  pub has_none-append : (q r : List (Option V)) → has_none (q ++ r) ≡ has_none q || has_none r
  unfolding has_none
  has_none-append [] r = refl
  has_none-append (none ∷ q) r = refl
  has_none-append (some v ∷ q) r = has_none-append q r

  -- What a worker may still put into the queue: in the loop, what its iterator has left; after it, nothing,
  -- unless `done` was set.
  abbrev pub Left : Bool → Pc V → List V → Type 0
  Left done (pulling g) rest = rest ≡ items g
  Left done (got v g) rest = rest ≡ v ∷ items g
  Left done (putting v g) rest = rest ≡ v ∷ items g
  Left done (checking g) rest = rest ≡ items g
  Left done waking rest = done ≡ true
  Left done _ rest = (done ≡ true) ⊎ (rest ≡ [])

  pub Left-mono :
      (done done' : Bool) (p : Pc V) (rest : List V)
      → (done ≡ true → done' ≡ true)
      → Left done p rest
      → Left done' p rest
  Left-mono done done' (pulling g) rest h l = l
  Left-mono done done' (got v g) rest h l = l
  Left-mono done done' (putting v g) rest h l = l
  Left-mono done done' (checking g) rest h l = l
  Left-mono done done' ending rest h l = ground (arith, h)
  Left-mono done done' waking rest h l = ground (arith, h)
  Left-mono done done' ended rest h l = ground (arith, h)

module _ {V : Type 0} (label : V → ℕ) where
  -- The values with a label, in order, without the Nones.
  unfoldable pub labelled : ℕ → List (Option V) → List V
  labelled i [] = []
  labelled i (none ∷ q) = labelled i q
  labelled i (some v ∷ q) = if label v == i then v ∷ labelled i q else labelled i q

  pub labelled-append :
      (i : ℕ) (q r : List (Option V)) → labelled i (q ++ r) ≡ labelled i q ++ labelled i r
  unfolding labelled
  labelled-append i [] r = refl
  labelled-append i (none ∷ q) r = labelled-append i q r
  labelled-append i (some v ∷ q) r = ground (arith, labelled-append i q r)

  abbrev pub IsLabelled : ℕ → List V → Type 0
  IsLabelled i vs = All (λ v. label v ≡ i) vs

  -- What a move puts into the queue.
  pub record Added (m m' : Shared V) (i : ℕ) (rest rest' : List V) : Type 0 where
    pub added : List (Option V)
    pub queue : m'.queue ≡ m.queue ++ added
    pub grows : m.done ≡ true → m'.done ≡ true
    pub marks : m'.done ≡ false → has_none added ≡ false
    pub own : labelled i added ++ rest' ≡ rest
    pub others : (j : ℕ) → i ≢ j → labelled j added ≡ []

  unchanged :
      (m : Shared V) (done : Bool) (i : ℕ) (rest : List V)
      → (m.done ≡ true → done ≡ true)
      → Added m (record { queue = m.queue; done = done }) i rest rest
  unfolding labelled has_none
  unchanged m done i rest h = record {
    added = [];
    queue = sym (append-nil m.queue);
    grows = h;
    marks = λ k. refl;
    own = refl;
    others = λ j k. refl;
  }

  -- What a worker's move means for the values of all iterators.
  pub record Moved (m m' : Shared V) (i : ℕ) (rest : List V) (p' : Pc V) : Type 0 where
    pub rest' : List V
    pub adds : Added m m' i rest rest'
    pub left : Left m'.done p' rest'

  stays :
      (m : Shared V) (i : ℕ) (rest : List V) (p' : Pc V) → Left m.done p' rest → Moved m m i rest p'
  stays m i rest p' l = record { rest' = rest; adds = unchanged m m.done i rest (λ h. h); left = l }

  Moved-put :
      (m : Shared V) (i : ℕ) (v : V) (rest : List V) (g : Gen V)
      → rest ≡ v ∷ items g
      → label v ≡ i
      → Moved m (record m { queue = m.queue ++ some v ∷ [] }) i rest (checking g)
  unfolding labelled has_none
  Moved-put m i v rest g l own = record {
    rest' = items g;
    adds = record {
      added = some v ∷ [];
      queue = refl;
      grows = λ h. h;
      marks = λ k. refl;
      own = ground arith;
      others = λ j h. ground (arith, h);
    };
    left = refl;
  }

  Moved-wake :
      (size : ℕ) (m : Shared V) (i : ℕ) (rest : List V)
      → m.done ≡ true
      → Moved m (record m { queue = put_none size m.queue }) i rest ended
  unfolding put_none labelled
  Moved-wake size m i rest l = elim (Bool-cases (ltb (length m.queue) size)) [
    | inl k ↦ rw k (record {
      rest' = rest;
      adds = record {
        added = none ∷ [];
        queue = refl;
        grows = λ h. h;
        marks = λ k. cc;
        own = refl;
        others = λ j h. refl;
      };
      left = inl l;
    })
    | inr k ↦ rw k (stays m i rest ended (inl l))
  ]

  pub Move-Moved :
      {size : ℕ} {m m' : Shared V} {p p' : Pc V} (i : ℕ) (rest : List V)
      → Move size m p m' p'
      → Left m.done p rest
      → IsLabelled i rest
      → Moved m m' i rest p'
  Move-Moved {m} i rest (pull {v} {g}) l own = stays m i rest (got v g) l
  Move-Moved {m} i rest exhaust l own = stays m i rest ending (inr l)
  Move-Moved {m} i rest crash l own = stays m i rest ended (inr l)
  Move-Moved {m} i rest (stop_early h) l own = stays m i rest ending (inl h)
  Move-Moved {m} i rest (go_on {v} {g} h) l own = stays m i rest (putting v g) l
  Move-Moved {m} i rest (put {v} {g} h) l own =
      Moved-put m i v rest g l ((subst (IsLabelled i) l own).0)
  Move-Moved {m} i rest (break_off h) l own = stays m i rest ending (inl h)
  Move-Moved {m} i rest (again {g} h) l own = stays m i rest (pulling g) l
  Move-Moved {m} i rest set_done l own = record {
    rest' = rest;
    adds = unchanged m true i rest (λ h. refl);
    left = refl;
  }
  Move-Moved {size} {m} i rest wake l own = Moved-wake size m i rest l
