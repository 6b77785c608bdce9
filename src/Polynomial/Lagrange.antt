-- ===== src/Polynomial/Lagrange.antt =====
-- `DeriveInterpolatingValue` computes the Lagrange weight at zero.
use go_frost.Common.{
  ◌≡◌, ◌≢◌, ◌↔◌, inl, inr, refl, sym, ap, ap₂, ◌∙◌, true, false, Bool-cases, some, List, [], ◌∷◌,
  All, Elem, Distinct, arith,
}
use go_frost.Algebra.{Field, ◌⊗◌, one-mul}
use go_frost.Algebra.Interpolation.{numerator, weight, denominator-ne-zero}
use go_frost.Errors.{ok}
use go_frost.Group.{Group, IsPrimeOrder}
use go_frost.Group.Scalars.{scalars, sub-zero, equal_false}
use go_frost.Polynomial.{
  scalar_one, found, repeated, has_duplicate, lagrange_loop, interpolate,
  derive_interpolating_value,
}

module _ (g : Group) (l : IsPrimeOrder g) where
  instance abbrev field : Field g.Scalar
  field = scalars g l

  pub scalar_one_lem : scalar_one g ≡ ok l.one
  unfolding scalar_one
  scalar_one_lem = rw (l.deserialize_one, scalar_one)

  found-Elem : (xi : g.Scalar) (xs : List g.Scalar) → Elem xi xs → found g xi xs ≡ true
  unfolding found
  found-Elem xi [] m = absurd m
  found-Elem xi (x ∷ xs) (inl e) = rw ((l.equal_iff x xi).1 (sym e))
  found-Elem xi (x ∷ xs) (inr m) = ground (arith, found-Elem xi xs m)

  Elem-found : (xi : g.Scalar) (xs : List g.Scalar) → found g xi xs ≡ true → Elem xi xs
  unfolding found
  Elem-found xi [] h = cc
  Elem-found xi (x ∷ xs) h = elim (Bool-cases (g.equal x xi)) [
    | inl e ↦ inl (sym ((l.equal_iff x xi).0 e))
    | inr e ↦ inr (Elem-found xi xs (ground arith))
  ]

  repeated-false :
      (x : g.Scalar) (ys : List g.Scalar) → All (λ y. x ≢ y) ys → repeated g x ys ≡ false
  unfolding repeated
  repeated-false x [] n = refl
  repeated-false x (y ∷ ys) n = rw (equal_false g l x y n.0) (repeated-false x ys n.1)

  All-repeated : (x : g.Scalar) (ys : List g.Scalar) → repeated g x ys ≡ false → All (λ y. x ≢ y) ys
  unfolding repeated
  All-repeated x [] h = tt
  All-repeated x (y ∷ ys) h =
      ((λ e. let t = (l.equal_iff x y).1 e in ground arith), All-repeated x ys (ground arith))

  has_duplicate-false : (xs : List g.Scalar) → Distinct xs → has_duplicate g xs ≡ false
  unfolding has_duplicate
  has_duplicate-false [] d = refl
  has_duplicate-false (x ∷ xs) d = rw (repeated-false x xs d.0) (has_duplicate-false xs d.1)

  Distinct-has_duplicate : (xs : List g.Scalar) → has_duplicate g xs ≡ false → Distinct xs
  unfolding has_duplicate
  Distinct-has_duplicate [] h = tt
  Distinct-has_duplicate (x ∷ xs) h =
      (All-repeated x xs (ground arith), Distinct-has_duplicate xs (ground arith))

  -- The weight of the value at `xi` for the value at zero.
  abbrev pub weight_at_zero : List g.Scalar → g.Scalar → g.Scalar
  weight_at_zero xs xi = weight g.equal l.equal_iff xs g.new_scalar xi

  lagrange_loop-product :
      (xs : List g.Scalar) (xi n d : g.Scalar)
      → lagrange_loop g xs xi n d ≡ (
        n ⊗ numerator g.equal l.equal_iff xs xi g.new_scalar,
        d ⊗ numerator g.equal l.equal_iff xs xi xi,
      )
  unfolding lagrange_loop
  lagrange_loop-product [] xi n d =
      ap₂ (λ a b. (a, b)) (sym (field.mul-one n)) (sym (field.mul-one d))
  lagrange_loop-product (xj ∷ xs) xi n d = elim (Bool-cases (g.equal xj xi)) [
    | inl e ↦ rw (e, lagrange_loop) (lagrange_loop-product xs xi n d)
    | inr e ↦
        rw (e, lagrange_loop)
          (lagrange_loop-product xs xi (g.mul n xj) (g.mul d (g.sub xj xi))
            ∙ ap₂ (λ a b. (a, b))
                (field.mul_assoc n xj _
                  ∙ ap (λ t. n ⊗ (t ⊗ numerator g.equal l.equal_iff xs xi g.new_scalar))
                      (sym (sub-zero g l xj)))
                (field.mul_assoc d (g.sub xj xi) _
                  ∙ ap (λ t. d ⊗ (t ⊗ numerator g.equal l.equal_iff xs xi xi)) (l.sub_lem xj xi)))
  ]

  loop_from_one :
      (xs : List g.Scalar) (xi : g.Scalar)
      → lagrange_loop g xs xi l.one l.one
        ≡ (numerator g.equal l.equal_iff xs xi g.new_scalar, numerator g.equal l.equal_iff xs xi xi)
  loop_from_one xs xi =
      lagrange_loop-product xs xi l.one l.one ∙ ap₂ (λ a b. (a, b)) (one-mul _) (one-mul _)

  weight_alone : (x xi : g.Scalar) → Elem xi (x ∷ []) → weight_at_zero (x ∷ []) xi ≡ l.one
  weight_alone x xi (inl e) =
      rw ((l.equal_iff x xi).1 (sym e)) (field.mul-recip l.one l.one-ne-zero)
  weight_alone x xi (inr m) = absurd m

  interpolate-weight :
      (xs : List g.Scalar) (xi : g.Scalar)
      → Elem xi xs
      → interpolate g xs xi ≡ ok (weight_at_zero xs xi)
  unfolding interpolate
  interpolate-weight [] xi m = absurd m
  interpolate-weight (x ∷ []) xi m = scalar_one_lem ∙ ap ok (sym (weight_alone x xi m))
  interpolate-weight (x ∷ y ∷ zs) xi m =
      let (b, p, _) = l.inv_lem _ (denominator-ne-zero g.equal l.equal_iff (x ∷ y ∷ zs) xi) in
      rw (scalar_one_lem, loop_from_one (x ∷ y ∷ zs) xi, p)

  -- For distinct coordinates that include `xi` the result is the weight of the value at `xi` for
  -- the value at zero.
  pub derive-weight :
      (xs : List g.Scalar) (xi : g.Scalar)
      → Elem xi xs
      → Distinct xs
      → derive_interpolating_value g xs (some xi) ≡ ok (weight_at_zero xs xi)
  unfolding derive_interpolating_value
  derive-weight [] xi m d = absurd m
  derive-weight (x ∷ xs) xi m d =
      rw (found-Elem xi (x ∷ xs) m, has_duplicate-false (x ∷ xs) d)
        (interpolate-weight (x ∷ xs) xi m)

  derive-accepted :
      (xs : List g.Scalar) (xi w : g.Scalar)
      → derive_interpolating_value g xs (some xi) ≡ ok w
      → Elem xi xs × Distinct xs
  unfolding derive_interpolating_value
  derive-accepted [] xi w h = cc
  derive-accepted (x ∷ xs) xi w h =
      (Elem-found xi (x ∷ xs) (ground arith), Distinct-has_duplicate (x ∷ xs) (ground arith))

  -- The call succeeds exactly when the coordinates are distinct and include `xi`, and what it
  -- returns is the Lagrange weight of the value at `xi` for the value at zero.
  pub derive-ok_iff :
      (xs : List g.Scalar) (xi w : g.Scalar)
      → (derive_interpolating_value g xs (some xi) ≡ ok w)
        ↔ (Elem xi xs × Distinct xs × (w ≡ weight_at_zero xs xi))
  derive-ok_iff xs xi w = (
    λ h. let (m, d) = derive-accepted xs xi w h in (m, d, cc (derive-weight xs xi m d)),
    λ h. rw h.2 (derive-weight xs xi h.0 h.1),
  )
