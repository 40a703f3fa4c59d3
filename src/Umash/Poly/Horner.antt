-- ===== src/Umash/Poly/Horner.antt =====
-- poly_reduce evaluates a polynomial modulo 2 ** 61 - 1, and its assertion never fails.
use native.Mathlib.Nat.{pow-suc, pow-zero, mod-mod}
use umash.Prelude.{
  ℕ, suc, ◌+◌, ◌-◌, ◌*◌, ◌/◌, ◌%◌, ◌^◌, ◌<◌, ◌≡◌, refl, ap, ◌∙◌, List, [], ◌∷◌, length, true, ◌==◌,
  ==_iff, mod_mul, mod_add, arith,
}
use umash.Python.{ok, from_list, Gen, yield}
use umash.Umash.Params.{w, modulus}
use umash.Umash.Poly.{poly_update, update_loop, poly_reduce}

-- The sum of y_i * m ^ (n - i), for the n coefficients y_0, …, y_(n - 1).
unfoldable pub terms : ℕ → List ℕ → ℕ
terms m [] = 0
terms m (y ∷ ys) = y * m ^ suc (length ys) + terms m ys

-- The polynomial hash of the coefficients, from the accumulator `a` on.
pub polynomial : ℕ → ℕ → List ℕ → ℕ
polynomial m a ys = a * m ^ length ys + terms m ys

-- The coefficients: the low and the high half of each value.
unfoldable pub halves : List ℕ → List ℕ
halves [] = []
halves (v ∷ vs) = v % w ∷ v / w ∷ halves vs

polynomial-horner :
    (m a y : ℕ) (ys : List ℕ) → polynomial m (m * (a + y)) ys ≡ polynomial m a (y ∷ ys)
unfolding polynomial terms
polynomial-horner m a y ys = rw (pow-suc m (length ys)) (grind arith)

polynomial-mod :
    (m a b : ℕ) (ys : List ℕ)
    → a % modulus ≡ b % modulus
    → polynomial m a ys % modulus ≡ polynomial m b ys % modulus
unfolding polynomial
polynomial-mod m a b ys e = mod_add modulus _ _ _ _ (mod_mul modulus a b _ _ e refl) refl

-- The new accumulator, before its reduction.
raw_update : ℕ → ℕ → ℕ → ℕ → ℕ
raw_update m acc y0 y1 = m ^ 2 % modulus * (acc + y0) + m * y1

raw_update-mod :
    (m acc y0 y1 : ℕ) → raw_update m acc y0 y1 % modulus ≡ m * (m * (acc + y0) + y1) % modulus
unfolding raw_update
raw_update-mod m acc y0 y1 =
    let square_eq : m ^ 2 ≡ m * m = grind (arith, pow-suc m 1, pow-suc m 0, pow-zero m) in
    let square : m ^ 2 % modulus % modulus ≡ m ^ 2 % modulus = mod-mod _ _ in
    mod_add modulus _ _ _ _ (mod_mul modulus (m ^ 2 % modulus) (m ^ 2) _ _ square refl) refl
    ∙ ap (λ t. t % modulus) (rw square_eq (grind arith))

-- 2 ** 64 - 8 is a multiple of the modulus.
mod_wide : (x : ℕ) → x % (w - 8) % modulus ≡ x % modulus
mod_wide x = omega arith

poly_update-ok :
    (m acc y0 y1 : ℕ)
    → poly_update m (m ^ 2 % modulus) acc y0 y1 ≡ ok (raw_update m acc y0 y1 % (w - 8))
unfolding poly_update raw_update
poly_update-ok m acc y0 y1 =
    let agree : (raw_update m acc y0 y1 % (w - 8) % modulus == m * (m * (acc + y0) + y1) % modulus)
        ≡ true =
      (==_iff _ _).1 (mod_wide (raw_update m acc y0 y1) ∙ raw_update-mod m acc y0 y1) in
    rw agree refl

update_loop-cons :
    (m v acc acc' : ℕ) (rest : Gen ℕ)
    → poly_update m (m ^ 2 % modulus) acc (v % w) (v / w) ≡ ok acc'
    → update_loop m (m ^ 2 % modulus) acc (yield v rest) ≡ update_loop m (m ^ 2 % modulus) acc' rest
unfolding update_loop
update_loop-cons m v acc acc' rest e = rw e refl

-- One update is two steps of Horner's rule.
update-polynomial :
    (m acc y0 y1 : ℕ) (ys : List ℕ)
    → polynomial m (raw_update m acc y0 y1 % (w - 8)) ys % modulus
      ≡ polynomial m acc (y0 ∷ y1 ∷ ys) % modulus
update-polynomial m acc y0 y1 ys =
    polynomial-mod m _ _ ys (mod_wide (raw_update m acc y0 y1) ∙ raw_update-mod m acc y0 y1)
    ∙ ap (λ t. t % modulus)
        (polynomial-horner m (m * (acc + y0)) y1 ys ∙ polynomial-horner m acc y0 (y1 ∷ ys))

update-halves :
    (m acc v : ℕ) (vs : List ℕ)
    → polynomial m (raw_update m acc (v % w) (v / w) % (w - 8)) (halves vs) % modulus
      ≡ polynomial m acc (halves (v ∷ vs)) % modulus
unfolding halves
update-halves m acc v vs = update-polynomial m acc (v % w) (v / w) (halves vs)

polynomial_none : (m acc : ℕ) → acc % modulus ≡ polynomial m acc (halves []) % modulus
unfolding polynomial terms halves
polynomial_none m acc = ap (λ t. t % modulus) (grind (arith, pow-zero m))

-- A result of the loop that starts at `acc`.
pub record IsHashOf (m acc : ℕ) (vs : List ℕ) (h : ℕ) : Type 0 where
  pub value : h % modulus ≡ polynomial m acc (halves vs) % modulus
  pub bounded : acc < w - 8 → h < w - 8

update_loop-polynomial :
    (m acc : ℕ) (vs : List ℕ)
    → (h : ℕ) × (update_loop m (m ^ 2 % modulus) acc (from_list vs) ≡ ok h) × IsHashOf m acc vs h
update_loop-polynomial m acc [] =
    (acc, unfold update_loop in refl, record { value = polynomial_none m acc; bounded = λ h. h })
update_loop-polynomial m acc (v ∷ vs) =
    let acc' = raw_update m acc (v % w) (v / w) % (w - 8) in
    let (h, runs, is) = update_loop-polynomial m acc' vs in
    (
      h,
      update_loop-cons m v acc acc' (from_list vs) (poly_update-ok m acc (v % w) (v / w)) ∙ runs,
      record {
        value = is.value ∙ update-halves m acc v vs;
        bounded = λ small. is.bounded (omega arith);
      },
    )

-- For any multiplier and any compressed values, no assertion of poly_reduce fails, its result is
-- congruent modulo 2 ** 61 - 1 to the polynomial in the multiplier whose coefficients are the
-- initial value and the halves of the values, and it is below 2 ** 64 - 8 when the initial value is.
pub poly_reduce-polynomial :
    (multiplier input_size initial : ℕ) (vs : List ℕ)
    → (h : ℕ) × (poly_reduce multiplier input_size (from_list vs) initial ≡ ok h)
      × IsHashOf multiplier initial vs h
unfolding poly_reduce
poly_reduce-polynomial multiplier input_size initial vs =
    update_loop-polynomial multiplier initial vs
