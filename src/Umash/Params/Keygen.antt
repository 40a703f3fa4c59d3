-- ===== src/Umash/Params/Keygen.antt =====
-- generate_key returns a well-formed key, and returns as soon as the random source lets it.
use native.Mathlib.Nat.{add-zero}
use umash.Prelude.{
  ℕ, zero, suc, ◌+◌, ◌<◌, ◌≡◌, refl, sym, ap, ◌∙◌, true, false, ◌||◌, Bool-cases, inl, inr, some,
  List, [], ◌∷◌, ◌++◌, length, length-append, All, Yields, Yields-and_then, Yields_some, ◌==◌,
  if◌then◌else◌, arith,
}
use umash.Umash.Params.{
  w, UmashKey, is_acceptable_multiplier, contains, Distinct, IsKey, Random, poly_loop, word_loop,
  oh_loop, generate_key,
}

contains-append : (v u : ℕ) (vs : List ℕ) → contains v (vs ++ u ∷ []) ≡ (contains v vs || v == u)
unfolding contains
contains-append v u [] = ground arith
contains-append v u (x ∷ vs) = ground (arith, contains-append v u vs)

Distinct-append :
    (u : ℕ) (vs : List ℕ) → Distinct vs → contains u vs ≡ false → Distinct (vs ++ u ∷ [])
unfolding contains
Distinct-append u [] d h = (refl, tt)
Distinct-append u (v ∷ vs) d h =
    (contains-append v u vs ∙ ground arith, Distinct-append u vs d.1 (ground arith))

All-append_one : (P : ℕ → Type 0) (u : ℕ) (vs : List ℕ) → All P vs → P u → All P (vs ++ u ∷ [])
All-append_one P u [] h p = (p, tt)
All-append_one P u (v ∷ vs) h p = (h.0, All-append_one P u vs h.1 p)

module _ (random : Random) where
  poly_loop-acceptable :
      (fuel poly calls : ℕ)
      → Yields (poly_loop random fuel poly calls) (λ r. is_acceptable_multiplier r.0 ≡ true)
  unfolding poly_loop
  poly_loop-acceptable zero poly calls = tt
  poly_loop-acceptable (suc fuel) poly calls =
      ground (arith, poly_loop-acceptable fuel (random.getrandbits 61 calls) (calls + 1))

  word_loop-fresh :
      (fuel : ℕ) (oh : List ℕ) (calls : ℕ)
      → Yields (word_loop random fuel oh calls) (λ r. (contains r.0 oh ≡ false) × (r.0 < w))
  unfolding word_loop
  word_loop-fresh zero oh calls = tt
  word_loop-fresh (suc fuel) oh calls =
      ground (arith, random.getrandbits-lt 64 calls, word_loop-fresh fuel oh (calls + 1))

  oh_loop-words :
      (fuel count n : ℕ) (oh : List ℕ) (calls : ℕ)
      → length oh + count ≡ n
      → Distinct oh
      → All (λ u. u < w) oh
      → Yields
          (oh_loop random fuel count oh calls)
          λ words. Distinct words × All (λ u. u < w) words × (length words ≡ n)
  unfolding oh_loop
  oh_loop-words fuel zero n oh calls e d a = (d, a, omega arith)
  oh_loop-words fuel (suc count) n oh calls e d a =
      Yields-and_then _ _ (word_loop random fuel oh calls) _ (word_loop-fresh fuel oh calls)
        λ r fresh.
          oh_loop-words fuel count n (oh ++ r.0 ∷ []) r.1
            (omega (arith, length-append oh (r.0 ∷ []))) (Distinct-append r.0 oh d fresh.0)
            (All-append_one _ r.0 oh a fresh.1)

  -- A key that generate_key returns has an acceptable multiplier and 34 distinct 64-bit words.
  pub generate_key-IsKey :
      (fuel : ℕ) (key : UmashKey)
      → generate_key random fuel ≡ some key
      → IsKey key × Distinct key.oh
  unfolding generate_key is_acceptable_multiplier
  generate_key-IsKey fuel key h =
      Yields_some (λ k. IsKey k × Distinct k.oh) _ key
        (Yields-and_then _ _ (poly_loop random fuel 0 0) _ (poly_loop-acceptable fuel 0 0) λ p good.
          Yields-and_then _ _ (oh_loop random fuel 34 [] p.1) _
            (oh_loop-words fuel 34 34 [] p.1 refl tt tt)
            λ oh words. (
              record {
                poly_lower = ground arith;
                poly_upper = ground arith;
                oh_length = words.2;
                oh_words = words.1;
              },
              words.0,
            ))
        h

  poly_loop-suc :
      (fuel poly calls : ℕ)
      → poly_loop random (suc fuel) poly calls ≡ (
          if is_acceptable_multiplier poly
          then some (poly, calls)
          else poly_loop random fuel (random.getrandbits 61 calls) (calls + 1))
  unfolding poly_loop
  poly_loop-suc fuel poly calls = refl

  word_loop-suc :
      (fuel : ℕ) (oh : List ℕ) (calls : ℕ)
      → word_loop random (suc fuel) oh calls ≡ (
          if contains (random.getrandbits 64 calls) oh
          then word_loop random fuel oh (calls + 1)
          else some (random.getrandbits 64 calls, calls + 1))
  unfolding word_loop
  word_loop-suc fuel oh calls = refl

  -- A draw that passes among the next ones ends the loop.
  poly_loop_total :
      (k fuel poly calls : ℕ)
      → k < fuel
      → is_acceptable_multiplier (random.getrandbits 61 (calls + k)) ≡ true
      → (r : ℕ × ℕ) × (poly_loop random (suc fuel) poly calls ≡ some r)
  poly_loop_total k zero poly calls h good = absurd (omega arith)
  poly_loop_total zero (suc fuel) poly calls h good =
      let draw = random.getrandbits 61 calls in
      let good' : is_acceptable_multiplier draw ≡ true =
        ap (λ t. is_acceptable_multiplier (random.getrandbits 61 t)) (sym (add-zero calls))
        ∙ good in
      elim (Bool-cases (is_acceptable_multiplier poly)) [
        | inl now ↦ ((poly, calls), rw (poly_loop-suc, now))
        | inr later ↦ ((draw, calls + 1), rw (poly_loop-suc, later, poly_loop-suc, good'))
      ]
  poly_loop_total (suc k) (suc fuel) poly calls h good =
      elim (Bool-cases (is_acceptable_multiplier poly)) [
        | inl now ↦ ((poly, calls), rw (poly_loop-suc, now))
        | inr later ↦
            rw (poly_loop-suc, later)
              (poly_loop_total k fuel (random.getrandbits 61 calls) (calls + 1) (omega arith)
                (ap (λ t. is_acceptable_multiplier (random.getrandbits 61 t)) (omega arith) ∙ good))
      ]

  word_loop_total :
      (k fuel : ℕ) (oh : List ℕ) (calls : ℕ)
      → k < fuel
      → contains (random.getrandbits 64 (calls + k)) oh ≡ false
      → (r : ℕ × ℕ) × (word_loop random fuel oh calls ≡ some r)
  word_loop_total k zero oh calls h fresh = absurd (omega arith)
  word_loop_total zero (suc fuel) oh calls h fresh =
      let draw = random.getrandbits 64 calls in
      let fresh' : contains draw oh ≡ false =
        ap (λ t. contains (random.getrandbits 64 t) oh) (sym (add-zero calls)) ∙ fresh in
      ((draw, calls + 1), rw (word_loop-suc, fresh'))
  word_loop_total (suc k) (suc fuel) oh calls h fresh =
      elim (Bool-cases (contains (random.getrandbits 64 calls) oh)) [
        | inr new ↦ ((random.getrandbits 64 calls, calls + 1), rw (word_loop-suc, new))
        | inl old ↦
            rw (word_loop-suc, old)
              (word_loop_total k fuel oh (calls + 1) (omega arith)
                (ap (λ t. contains (random.getrandbits 64 t) oh) (omega arith) ∙ fresh))
      ]

  -- While fewer than 34 words are there, one of the next `fuel` draws is new.
  abbrev pub FreshWithin : ℕ → Type 0
  FreshWithin fuel =
      (oh : List ℕ) (calls : ℕ)
      → length oh < 34
      → (k : ℕ) × (k < fuel) × (contains (random.getrandbits 64 (calls + k)) oh ≡ false)

  oh_loop_total :
      (fuel count : ℕ) (oh : List ℕ) (calls : ℕ)
      → FreshWithin fuel
      → length oh + count ≡ 34
      → (words : List ℕ) × (oh_loop random fuel count oh calls ≡ some words)
  unfolding oh_loop
  oh_loop_total fuel zero oh calls fresh e = (oh, refl)
  oh_loop_total fuel (suc count) oh calls fresh e =
      let draw = fresh oh calls (omega arith) in
      let (r, found) = word_loop_total draw.0 fuel oh calls draw.1 draw.2 in
      rw found (
        oh_loop_total fuel count (oh ++ r.0 ∷ []) r.1 fresh
          (omega (arith, length-append oh (r.0 ∷ []))))

  -- generate_key returns if one of the first `fuel` 61-bit draws is acceptable and, for each of
  -- the 34 words, one of the next `fuel` + 1 64-bit draws is none of the words so far.
  pub generate_key_total :
      (fuel k : ℕ)
      → k < fuel
      → is_acceptable_multiplier (random.getrandbits 61 k) ≡ true
      → FreshWithin (suc fuel)
      → (key : UmashKey) × (generate_key random (suc fuel) ≡ some key)
  unfolding generate_key
  generate_key_total fuel k h good fresh =
      let (p, found) =
        poly_loop_total k fuel 0 0 h
          (ap (λ t. is_acceptable_multiplier (random.getrandbits 61 t)) (omega arith) ∙ good) in
      let (oh, drawn) = oh_loop_total (suc fuel) 34 [] p.1 fresh refl in
      (record { poly = p.0; oh = oh }, rw (found, drawn))
