-- ===== src/Csm/Sum/Dekker.antt =====
-- The Dekker sum of sum_update_up is exact.
use umash.Prelude.{ℕ, ◌+◌, ◌-◌, ◌≤◌, ◌≡◌, sym, ap, subst, ◌∙◌, Bool, true, false, arith}
use umash.Python.Integer.{ℤ, ◌+ℤ◌, ◌-ℤ◌, with_sign, int_laws, part_laws}
use umash.Python.Float.{Float, value, add, sub, units}
use umash.Python.Float.Units.{units_mono}
use umash.Python.Float.Ordered.{IsFinite}
use umash.Python.Float.Rounded.{IsRounded}
use umash.Python.Float.Nearest.{distance}
use umash.Python.Float.Multiples.{Representable}
use umash.Python.Float.Dekker.{sum_parts, difference_parts}
use umash.Csm.Sum.{dekker_sum}
use umash.Csm.Sum.Rounding.{size, IsSideOf, sub_exact, add-IsSideOf}

-- The two differences of the Dekker sum are representable, for two terms by sign and magnitude.
record Differences (a b : ℤ) (x : Float) : Type 0 where
  gained : Representable (size (value x -ℤ a))
  error : Representable (size (b -ℤ (value x -ℤ a)))

differences :
    (s s' : Bool) (m n : ℕ) (x : Float)
    → n ≤ m
    → IsSideOf (with_sign s (units m) +ℤ with_sign s' (units n)) x
    → Differences (with_sign s (units m)) (with_sign s' (units n)) x
unfolding distance
differences false false m n x h side =
    let a = with_sign false (units m) in
    let b = with_sign false (units n) in
    let e : size (a +ℤ b) ≡ units m + units n = omega part_laws in
    let parts =
      sum_parts m n x.magnitude h (subst (λ t. IsRounded t 1 x.magnitude) e side.rounded) in
    let sided = side.above (omega part_laws) in
    let gained : units x.magnitude - units m ≡ size (value x -ℤ a) =
      omega (part_laws, sided, parts.0) in
    let error : distance (units x.magnitude) (units m + units n) ≡ size (b -ℤ (value x -ℤ a)) =
      omega (part_laws, sided, parts.0) in
    record {
      gained = subst Representable gained (parts.1);
      error = subst Representable error (parts.2);
    }
differences true true m n x h side =
    let a = with_sign true (units m) in
    let b = with_sign true (units n) in
    let e : size (a +ℤ b) ≡ units m + units n = omega part_laws in
    let parts =
      sum_parts m n x.magnitude h (subst (λ t. IsRounded t 1 x.magnitude) e side.rounded) in
    let sided = side.below (omega part_laws) in
    let gained : units x.magnitude - units m ≡ size (value x -ℤ a) =
      omega (part_laws, sided, parts.0) in
    let error : distance (units x.magnitude) (units m + units n) ≡ size (b -ℤ (value x -ℤ a)) =
      omega (part_laws, sided, parts.0) in
    record {
      gained = subst Representable gained (parts.1);
      error = subst Representable error (parts.2);
    }
differences false true m n x h side =
    let a = with_sign false (units m) in
    let b = with_sign true (units n) in
    let terms : units n ≤ units m = omega (arith, units_mono n m h) in
    let e : size (a +ℤ b) ≡ units m - units n = omega part_laws in
    let parts =
      difference_parts m n x.magnitude h (subst (λ t. IsRounded t 1 x.magnitude) e side.rounded) in
    let sided = side.above (omega part_laws) in
    let gained : units m - units x.magnitude ≡ size (value x -ℤ a) =
      omega (part_laws, sided, parts.0) in
    let error : distance (units x.magnitude) (units m - units n) ≡ size (b -ℤ (value x -ℤ a)) =
      omega (part_laws, sided, parts.0) in
    record {
      gained = subst Representable gained (parts.1);
      error = subst Representable error (parts.2);
    }
differences true false m n x h side =
    let a = with_sign true (units m) in
    let b = with_sign false (units n) in
    let terms : units n ≤ units m = omega (arith, units_mono n m h) in
    let e : size (a +ℤ b) ≡ units m - units n = omega part_laws in
    let parts =
      difference_parts m n x.magnitude h (subst (λ t. IsRounded t 1 x.magnitude) e side.rounded) in
    let sided = side.below (omega part_laws) in
    let gained : units m - units x.magnitude ≡ size (value x -ℤ a) =
      omega (part_laws, sided, parts.0) in
    let error : distance (units x.magnitude) (units m - units n) ≡ size (b -ℤ (value x -ℤ a)) =
      omega (part_laws, sided, parts.0) in
    record {
      gained = subst Representable gained (parts.1);
      error = subst Representable error (parts.2);
    }

regroup : (a b x : ℤ) → x +ℤ (b -ℤ (x -ℤ a)) ≡ a +ℤ b
regroup a b x = omega int_laws

-- As long as nothing overflows, the Dekker sum of a and b, for |a| >= |b|, is exact: the two results add
-- up to a + b.
pub dekker_sum_exact :
    (a b : Float)
    → IsFinite a
    → IsFinite b
    → b.magnitude ≤ a.magnitude
    → IsFinite (add a b)
    → IsFinite (sub (add a b) a)
    → IsFinite (sub b (sub (add a b) a))
    → value ((dekker_sum a b).0) +ℤ value ((dekker_sum a b).1) ≡ value a +ℤ value b
unfolding dekker_sum
dekker_sum_exact a b ha hb h hx hv hy =
    let x = add a b in
    let d : Differences (value a) (value b) x =
      differences a.negative b.negative a.magnitude b.magnitude x h (add-IsSideOf a b ha hb hx) in
    let gained : value (sub x a) ≡ value x -ℤ value a = sub_exact x a hx ha hv d.gained in
    let error : value (sub b (sub x a)) ≡ value b -ℤ value (sub x a) =
      sub_exact b (sub x a) hb hv hy
        (subst (λ t. Representable (size (value b -ℤ t))) (sym gained) d.error) in
    ap (λ i. value x +ℤ i) (error ∙ ap (λ i. value b -ℤ i) gained)
    ∙ regroup (value a) (value b) (value x)
