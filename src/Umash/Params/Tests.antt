-- ===== src/Umash/Params/Tests.antt =====
-- Runs of generate_key with a counter as the random source.
use native.Mathlib.Nat.{mod-lt, one-le-pow}
use umash.Prelude.{◌+◌, ◌%◌, ◌^◌, ◌≡◌, refl, true, some, [], ◌∷◌, arith}
use umash.Umash.Params.{
  UmashKey, IsKey, Distinct, Random, is_acceptable_multiplier, contains, poly_loop, word_loop,
  oh_loop, generate_key,
}
use umash.Umash.Params.Keygen.{FreshWithin, generate_key-IsKey, generate_key_total}
use umash.Umash.Params.Pigeonhole.{fresh_member}

abbrev counter : Random
counter = record {
  getrandbits = λ k i. (i + 2) % 2 ^ k;
  getrandbits-lt = λ k i. mod-lt (i + 2) (one-le-pow k 2 (omega arith));
}

abbrev counted_key : UmashKey
counted_key = record {
  poly = 2;
  oh =
      3 ∷ 4 ∷ 5 ∷ 6 ∷ 7 ∷ 8 ∷ 9 ∷ 10 ∷ 11 ∷ 12 ∷ 13 ∷ 14 ∷ 15 ∷ 16 ∷ 17 ∷ 18 ∷ 19 ∷ 20 ∷ 21 ∷ 22
      ∷ 23 ∷ 24 ∷ 25 ∷ 26 ∷ 27 ∷ 28 ∷ 29 ∷ 30 ∷ 31 ∷ 32 ∷ 33 ∷ 34 ∷ 35 ∷ 36 ∷ [];
}

generate_key-counter : generate_key counter 2 ≡ some counted_key
unfolding generate_key poly_loop word_loop oh_loop contains is_acceptable_multiplier
generate_key-counter = refl

generate_key-IsKey_example : IsKey counted_key × Distinct counted_key.oh
generate_key-IsKey_example = generate_key-IsKey counter 2 counted_key generate_key-counter

-- Any 34 successive numbers of the counter are different.
counter-FreshWithin : FreshWithin counter 35
counter-FreshWithin oh calls room =
    let (k, small, fresh) =
      fresh_member oh (λ i. counter.getrandbits 64 (calls + i))
        (λ i j below top e. absurd (omega arith)) in
    (k, omega arith, fresh)

accepted : is_acceptable_multiplier (counter.getrandbits 61 0) ≡ true
unfolding is_acceptable_multiplier
accepted = refl

generate_key_total_example : (key : UmashKey) × (generate_key counter 35 ≡ some key)
generate_key_total_example =
    generate_key_total counter 34 0 (omega arith) accepted counter-FreshWithin
