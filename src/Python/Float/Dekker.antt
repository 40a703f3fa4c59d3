-- ===== src/Python/Float/Dekker.antt =====
-- The differences of a fast two-sum are representable: what a rounded sum or difference of two
-- magnitudes has gained over the greater one, and its error.
use native.Mathlib.Nat.{pow-suc, one-le-pow, mul-le-mul_right, mul-le-mul_left, pow-le-pow_right}
use umash.Prelude.{ℕ, suc, ◌+◌, ◌-◌, ◌*◌, ◌^◌, ◌≤◌, ◌<◌, ◌≡◌, ap, subst, ◌∙◌, ◌⊎◌, inl, inr, arith}
use umash.Python.Float.Round.{units}
use umash.Python.Float.Units.{
  IsScaled, units-here, units-above, units-step, units_low, scale_of, units_mono,
}
use umash.Python.Float.Rounded.{IsRounded}
use umash.Python.Float.Nearest.{
  distance, below_scaled, IsRounded-exact, IsRounded-nearest, IsRounded-over, IsRounded-under,
}
use umash.Python.Float.Multiples.{
  Representable, IsMultiple, IsMultiple-Representable, IsMultiple-add, IsMultiple-sub,
  IsMultiple-weaken,
}

-- A magnitude by its scale and its significand.
pub record Scaled (m : ℕ) : Type 0 where
  pub scale : ℕ
  pub significand : ℕ
  pub parts : m ≡ scale * 2 ^ 52 + significand
  pub fits : IsScaled scale significand
  pub worth : units m ≡ significand * 2 ^ scale
  pub worth_above : units (suc m) ≡ suc significand * 2 ^ scale

Scaled-of : (m : ℕ) → Scaled m
Scaled-of m =
    let (k, q, e, h) = scale_of m in
    record {
      scale = k;
      significand = q;
      parts = e;
      fits = h;
      worth = ap units e ∙ units-here k q h;
      worth_above = ap (λ t. units (suc t)) e ∙ units-above k q h;
    }

-- A greater magnitude has no lesser scale.
scale_mono : (m n : ℕ) (s : Scaled m) (t : Scaled n) → m ≤ n → s.scale ≤ t.scale
scale_mono m n s t h =
    omega (arith, s.parts, t.parts, s.fits.normal_or_low, s.fits.below, t.fits.below)

-- The value of a rounded number is a multiple of the step at its floor.
IsMultiple-rounded :
    (num r : ℕ) (h : IsRounded num 1 r) (f : Scaled h.floor) → IsMultiple f.scale (units r)
IsMultiple-rounded num r h f = elim h.nearer [
  | inl c ↦ record { quotient = f.significand; exact = ap units (c.0) ∙ f.worth }
  | inr c ↦ record { quotient = suc f.significand; exact = ap units (c.0) ∙ f.worth_above }
]

-- How far a rounded number is from the number: half a step at most.
error_bound :
    (num r : ℕ) (h : IsRounded num 1 r) (f : Scaled h.floor)
    → (2 * units r ≤ 2 * num + 2 ^ f.scale) × (2 * num ≤ 2 * units r + 2 ^ f.scale)
error_bound num r h f = elim h.nearer [
  | inl c ↦
      let e : units r ≡ units h.floor = ap units (c.0) in
      (omega (arith, h.from_below), omega (arith, c.1, f.worth, f.worth_above))
  | inr c ↦
      let e : units r ≡ units (suc h.floor) = ap units (c.0) in
      (omega (arith, c.1, f.worth, f.worth_above), omega (arith, h.from_above))
]

-- The error of a rounded number is representable, when the number is at most `b` from a magnitude and
-- a multiple of the step of `b`, which is no greater than that at the floor.
error-Representable :
    (num r a b : ℕ) (h : IsRounded num 1 r) (f : Scaled h.floor) (t : Scaled b)
    → distance (units a * 1) num ≤ units b
    → t.scale ≤ f.scale
    → IsMultiple t.scale num
    → Representable (distance (units r) num)
unfolding distance
error-Representable num r a b h f t near le multiple =
    let x = IsMultiple-weaken t.scale f.scale (units r) le (IsMultiple-rounded num r h f) in
    let nearest = IsRounded-nearest num 1 r h a in
    let bound : t.significand * 2 ^ t.scale ≤ 2 ^ 53 * 2 ^ t.scale =
      mul-le-mul_right (2 ^ t.scale) (omega (arith, t.fits.below)) in
    IsMultiple-Representable t.scale ((units r - num) + (num - units r))
      (IsMultiple-add t.scale (units r - num) (num - units r)
        (IsMultiple-sub t.scale (units r) num x multiple)
        (IsMultiple-sub t.scale num (units r) multiple x))
      (omega (arith, bound, t.worth, near, nearest))

IsMultiple-here : (m : ℕ) (s : Scaled m) → IsMultiple s.scale (units m)
IsMultiple-here m s = record { quotient = s.significand; exact = s.worth }

significand_bound : (m : ℕ) (s : Scaled m) → units m + 2 ^ s.scale ≤ 2 ^ 53 * 2 ^ s.scale
significand_bound m s = omega (arith, s.worth, mul-le-mul_right (2 ^ s.scale) (s.fits.below))

worth_mono : (m n : ℕ) → m ≤ n → units m ≤ units n
worth_mono m n h = omega (arith, units_mono m n h)

-- The scale at the floor of a sum is at most one more than that of the greater term.
sum_scale :
    (a b f : ℕ) (s : Scaled a) (t : Scaled f)
    → b ≤ a
    → units f ≤ units a + units b
    → 2 ^ t.scale ≤ 2 * 2 ^ s.scale
sum_scale a b f s t h le =
    let cases : (t.scale ≤ suc s.scale) ⊎ (suc (suc s.scale) ≤ t.scale) = omega arith in
    elim cases [
      | inl l ↦
          let most : 2 ^ t.scale ≤ 2 ^ suc s.scale = pow-le-pow_right (omega arith) l in
          omega (arith, pow-suc 2 s.scale, most)
      | inr l ↦
          let big : 2 ^ suc (suc s.scale) ≤ 2 ^ t.scale = pow-le-pow_right (omega arith) l in
          let low : 2 ^ 52 ≤ t.significand = omega (arith, t.fits.normal_or_low) in
          let large : 2 ^ 52 * 2 ^ t.scale ≤ t.significand * 2 ^ t.scale =
            mul-le-mul_right (2 ^ t.scale) low in
          omega (
            arith,
            pow-suc 2 s.scale,
            pow-suc 2 (suc s.scale),
            big,
            large,
            t.worth,
            le,
            worth_mono b a h,
            significand_bound a s,
            one-le-pow s.scale 2 (omega arith),
          )
    ]

-- What the rounded sum of two magnitudes has over the greater one, and its error.
pub sum_parts :
    (a b r : ℕ)
    → b ≤ a
    → IsRounded (units a + units b) 1 r
    → (units a ≤ units r)
      × Representable (units r - units a)
      × Representable (distance (units r) (units a + units b))
unfolding distance
sum_parts a b r h rounded =
    let s = Scaled-of a in
    let t = Scaled-of b in
    let f = Scaled-of rounded.floor in
    let over : a ≤ r = IsRounded-over (units a + units b) 1 r a rounded (omega arith) in
    let floor : a < suc rounded.floor =
      below_scaled a (suc rounded.floor) 1 (omega (arith, rounded.from_above)) in
    let up : s.scale ≤ f.scale = scale_mono a rounded.floor s f (omega arith) in
    let down : t.scale ≤ s.scale = scale_mono b a t s h in
    let step = sum_scale a b rounded.floor s f h (omega (arith, rounded.from_below)) in
    let error = error_bound (units a + units b) r rounded f in
    let gained =
      IsMultiple-sub s.scale (units r) (units a)
        (IsMultiple-weaken s.scale f.scale (units r) up
          (IsMultiple-rounded (units a + units b) r rounded f))
        (IsMultiple-here a s) in
    (
      worth_mono a r over,
      IsMultiple-Representable s.scale (units r - units a) gained
          (omega (arith, error, step, significand_bound a s, worth_mono b a h)),
      error-Representable (units a + units b) r a b rounded f t (omega arith) (omega arith) (
          IsMultiple-add t.scale (units a) (units b)
            (IsMultiple-weaken t.scale s.scale (units a) down (IsMultiple-here a s))
            (IsMultiple-here b t)),
    )

-- A difference of which the scale at the floor is less than that of the lesser term is exact.
exact_difference :
    (a b r : ℕ) (rounded : IsRounded (units a - units b) 1 r) (t : Scaled b)
    (f : Scaled rounded.floor)
    → f.scale < t.scale
    → IsMultiple t.scale (units a - units b)
    → units r ≡ units a - units b
exact_difference a b r rounded t f less multiple =
    let small : suc f.significand * 2 ^ f.scale ≤ 2 ^ 53 * 2 ^ f.scale =
      mul-le-mul_right (2 ^ f.scale) (f.fits.below) in
    let powers : 2 ^ f.scale ≤ 2 ^ t.scale = pow-le-pow_right (omega arith) (omega arith) in
    let there =
      IsMultiple-Representable t.scale (units a - units b) multiple
        (omega (arith, small, powers, f.worth_above, rounded.from_above)) in
    let e : units a - units b ≡ units there.magnitude * 1 = omega (arith, there.worth) in
    ap units
      (IsRounded-exact 1 r there.magnitude (omega arith) (subst (λ n. IsRounded n 1 r) e rounded))
    ∙ there.worth

-- What the rounded difference of two magnitudes has lost from the greater one, and its error.
pub difference_parts :
    (a b r : ℕ)
    → b ≤ a
    → IsRounded (units a - units b) 1 r
    → (units r ≤ units a)
      × Representable (units a - units r)
      × Representable (distance (units r) (units a - units b))
unfolding distance
difference_parts a b r h rounded =
    let s = Scaled-of a in
    let t = Scaled-of b in
    let f = Scaled-of rounded.floor in
    let under : r ≤ a =
      IsRounded-under (units a - units b) 1 r a (omega arith) rounded (omega arith) in
    let floor : rounded.floor < suc a =
      below_scaled rounded.floor (suc a) 1
        (omega (arith, rounded.from_below, worth_mono a (suc a) (omega arith), units-step a)) in
    let up : f.scale ≤ s.scale = scale_mono rounded.floor a f s (omega arith) in
    let down : t.scale ≤ s.scale = scale_mono b a t s h in
    let terms = worth_mono b a h in
    let multiple =
      IsMultiple-sub t.scale (units a) (units b)
        (IsMultiple-weaken t.scale s.scale (units a) down (IsMultiple-here a s))
        (IsMultiple-here b t) in
    let cases : (t.scale ≤ f.scale) ⊎ (f.scale < t.scale) = omega arith in
    elim cases [
      | inl l ↦
          let error = error_bound (units a - units b) r rounded f in
          let powers : 2 ^ t.scale ≤ 2 ^ f.scale = pow-le-pow_right (omega arith) l in
          let most : t.significand * 2 ^ f.scale + 2 ^ f.scale ≤ 2 ^ 53 * 2 ^ f.scale =
            omega (arith, mul-le-mul_right (2 ^ f.scale) (t.fits.below)) in
          let lesser : units b ≤ t.significand * 2 ^ f.scale =
            omega (arith, t.worth, mul-le-mul_left t.significand powers) in
          (
            worth_mono r a under,
            IsMultiple-Representable f.scale (units a - units r)
                (IsMultiple-sub f.scale (units a) (units r)
                  (IsMultiple-weaken f.scale s.scale (units a) up (IsMultiple-here a s))
                  (IsMultiple-rounded (units a - units b) r rounded f))
                (omega (arith, error, most, lesser, terms)),
            error-Representable (units a - units b) r a b rounded f t (omega (arith, terms)) l
                multiple,
          )
      | inr l ↦
          let exact = exact_difference a b r rounded t f l multiple in
          (
            worth_mono r a under,
            record { magnitude = b; worth = omega (arith, exact, terms) },
            record { magnitude = 0; worth = units_low 0 (omega arith) ∙ omega (arith, exact) },
          )
    ]
