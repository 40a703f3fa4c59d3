-- ===== src/Umash/Finalize/Inverse.antt =====
-- finalize is a permutation of the 64-bit words: its 64th iterate is the identity.
use native.Mathlib.Nat.{add_comm, mul_comm, mul-one, two-pow-succ}
use umash.Prelude.{ℕ, zero, suc, ◌+◌, ◌*◌, ◌^◌, ◌<◌, bit_xor, ◌≡◌, refl, sym, ap, ap₂, ◌∙◌, arith}
use umash.Bits.{xor_laws, bit_xor-lt}
use umash.Umash.Finalize.{rotl, finalize}
use umash.Umash.Finalize.Rotation.{rotl-lt, rotl-bit_xor, rotl-rotl, rotl-full}

-- The map x ^ rotl(x, a) ^ rotl(x, b); finalize is the one with a = 8 and b = 33.
pub rotate_mix : ℕ → ℕ → ℕ → ℕ
rotate_mix a b x = bit_xor (bit_xor x (rotl x a)) (rotl x b)

-- Two applications double the distances: the mixed terms cancel.
rotate_mix_twice : (a b x : ℕ) → rotate_mix a b (rotate_mix a b x) ≡ rotate_mix (a + a) (b + b) x
unfolding rotate_mix
rotate_mix_twice a b x = simp (rotl-bit_xor, rotl-rotl) (rw (add_comm b a) (simp xor_laws))

pub iterate : ℕ → (ℕ → ℕ) → ℕ → ℕ
iterate zero f x = x
iterate (suc n) f x = f (iterate n f x)

iterate_double :
    (f g : ℕ → ℕ) → ((x : ℕ) → f (f x) ≡ g x) → (n x : ℕ) → iterate (n + n) f x ≡ iterate n g x
unfolding iterate
iterate_double f g twice zero x = refl
iterate_double f g twice (suc n) x =
    let count : suc n + suc n ≡ suc (suc (n + n)) = omega arith in
    rw count (twice (iterate (n + n) f x) ∙ ap g (iterate_double f g twice n x))

rotate_mix_double :
    (n a b x : ℕ) → iterate (n + n) (rotate_mix a b) x ≡ iterate n (rotate_mix (a + a) (b + b)) x
rotate_mix_double n a b x =
    iterate_double (rotate_mix a b) (rotate_mix (a + a) (b + b)) (rotate_mix_twice a b) n x

iterate_pow :
    (k a b x : ℕ) → iterate (2 ^ k) (rotate_mix a b) x ≡ rotate_mix (a * 2 ^ k) (b * 2 ^ k) x
iterate_pow zero a b x =
    unfold iterate in ap₂ (λ s t. rotate_mix s t x) (sym (mul-one a)) (sym (mul-one b))
iterate_pow (suc k) a b x = rw two-pow-succ (
    rotate_mix_double (2 ^ k) a b x
    ∙ iterate_pow k (a + a) (b + b) x
    ∙ ap₂ (λ s t. rotate_mix s t x) (omega arith) (omega arith))

-- Six doublings take the distances to multiples of 64, where the two rotations cancel.
iterate-rotate_mix : (a b x : ℕ) → x < 2 ^ 64 → iterate 64 (rotate_mix a b) x ≡ x
iterate-rotate_mix a b x small =
    iterate_pow 6 a b x
    ∙ unfold rotate_mix in
      rw (mul_comm a 64, mul_comm b 64, rotl-full x a small, rotl-full x b small) (simp xor_laws)

-- The 64th iterate of finalize is the identity on 64-bit words.
pub iterate-finalize : (x : ℕ) → x < 2 ^ 64 → iterate 64 finalize x ≡ x
unfolding finalize rotate_mix
iterate-finalize x small = iterate-rotate_mix 8 33 x small

pub finalize-lt : (x : ℕ) → x < 2 ^ 64 → finalize x < 2 ^ 64
unfolding finalize
finalize-lt x small = bit_xor-lt _ _ 64 (bit_xor-lt x _ 64 small (rotl-lt x 8)) (rotl-lt x 33)

iterate-lt : (n x : ℕ) → x < 2 ^ 64 → iterate n finalize x < 2 ^ 64
unfolding iterate
iterate-lt zero x small = small
iterate-lt (suc n) x small = finalize-lt _ (iterate-lt n x small)

iterate_last : (n x : ℕ) → iterate n finalize (finalize x) ≡ iterate (suc n) finalize x
unfolding iterate
iterate_last zero x = refl
iterate_last (suc n) x = ap finalize (iterate_last n x)

-- The inverse of finalize.
pub unfinalize : ℕ → ℕ
unfinalize y = iterate 63 finalize y

pub unfinalize-lt : (y : ℕ) → y < 2 ^ 64 → unfinalize y < 2 ^ 64
unfolding unfinalize
unfinalize-lt y small = iterate-lt 63 y small

-- finalize is a bijection of the 64-bit words: unfinalize is its inverse on both sides.
pub finalize_bijective :
    (x : ℕ)
    → x < 2 ^ 64
    → (finalize x < 2 ^ 64)
      × (unfinalize x < 2 ^ 64)
      × (unfinalize (finalize x) ≡ x)
      × (finalize (unfinalize x) ≡ x)
unfolding unfinalize iterate
finalize_bijective x small = (
  finalize-lt x small,
  unfinalize-lt x small,
  iterate_last 63 x ∙ iterate-finalize x small,
  iterate-finalize x small,
)

pub finalize_inj : (x y : ℕ) → x < 2 ^ 64 → y < 2 ^ 64 → finalize x ≡ finalize y → x ≡ y
finalize_inj x y hx hy e =
    sym (finalize_bijective x hx).2 ∙ ap unfinalize e ∙ (finalize_bijective y hy).2
