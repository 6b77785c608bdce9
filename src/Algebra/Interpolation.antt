-- ===== src/Algebra/Interpolation.antt =====
-- Lagrange interpolation: the value of a polynomial at any point, from its values at distinct
-- points that are at least as many as its coefficients.
use go_frost.Common.{
  ℕ, suc, ◌≤◌, ◌≡◌, ◌≢◌, ◌↔◌, inl, inr, refl, sym, ap, ◌∙◌, Bool, true, Bool-cases, if◌then◌else◌,
  List, [], ◌∷◌, length, All, All-of_Elem, Elem, Distinct, arith,
}
use go_frost.Algebra.{Field, ◌⊗◌, ◌⊖◌, mul-zero, zero-mul, sub-eq-zero, neg_one-mul}
use go_frost.Algebra.Sums.{sum, product, product-zero, product-ne-zero, sum_single}
use go_frost.Algebra.Polynomials.{
  poly_value, IsPolynomial, IsPolynomial-zero, IsPolynomial-constant, IsPolynomial-add,
  IsPolynomial-scale, IsPolynomial-linear, IsPolynomial-weaken, roots_bound,
}

module _ {F : Type 0} ⦃f : Field F⦄ where
  IsPolynomial-congr :
      {n : ℕ} {h k : F → F} → ((x : F) → k x ≡ h x) → IsPolynomial n h → IsPolynomial n k
  IsPolynomial-congr e p = record {
    coefficients = p.coefficients;
    bound = p.bound;
    value = λ x. e x ∙ p.value x;
  }

  IsPolynomial-product :
      (ys : List F) → IsPolynomial (suc (length ys)) (λ x. product ys (λ y. y ⊖ x))
  IsPolynomial-product [] = IsPolynomial-constant f.one
  IsPolynomial-product (y ∷ ys) = IsPolynomial-linear y (IsPolynomial-product ys)

  IsPolynomial-sum :
      {n : ℕ} (ys : List F) (h : F → F → F)
      → All (λ y. IsPolynomial n (h y)) ys
      → IsPolynomial n (λ x. sum ys (λ y. h y x))
  IsPolynomial-sum {n} [] h p = IsPolynomial-zero n
  IsPolynomial-sum (y ∷ ys) h p = IsPolynomial-add p.0 (IsPolynomial-sum ys h p.1)

module _ {F : Type 0} ⦃f : Field F⦄ (same : F → F → Bool)
    (same_iff : (a b : F) → (same a b ≡ true) ↔ (a ≡ b)) where
  -- The entries other than `xi`.
  abbrev pub others : F → List F → List F
  others xi [] = []
  others xi (x ∷ xs) = let rest = others xi xs in if same x xi then rest else x ∷ rest

  length-others-le : (xi : F) (xs : List F) → length (others xi xs) ≤ length xs
  length-others-le xi [] = omega arith
  length-others-le xi (x ∷ xs) = ground (arith, length-others-le xi xs)

  length-others-lt : (xi : F) (xs : List F) → Elem xi xs → suc (length (others xi xs)) ≤ length xs
  length-others-lt xi [] m = absurd m
  length-others-lt xi (x ∷ xs) (inl e) =
      rw ((same_iff x xi).1 (sym e)) (omega (arith, length-others-le xi xs))
  length-others-lt xi (x ∷ xs) (inr m) = ground (arith, length-others-lt xi xs m)

  pub All-others : (xi : F) (xs : List F) → All (λ x. x ≢ xi) (others xi xs)
  All-others xi [] = tt
  All-others xi (x ∷ xs) = elim (Bool-cases (same x xi)) [
    | inl e ↦ rw e (All-others xi xs)
    | inr e ↦ rw e ((λ p. cc (e, (same_iff x xi).1 p)), All-others xi xs)
  ]

  Elem-others : (a xi : F) (xs : List F) → Elem a xs → xi ≢ a → Elem a (others xi xs)
  Elem-others a xi [] m n = absurd m
  Elem-others a xi (x ∷ xs) (inl e) n = elim (Bool-cases (same x xi)) [
    | inl p ↦ absurd (n (sym ((same_iff x xi).0 p) ∙ sym e))
    | inr p ↦ rw p (inl e)
  ]
  Elem-others a xi (x ∷ xs) (inr m) n = elim (Bool-cases (same x xi)) [
    | inl p ↦ rw p (Elem-others a xi xs m n)
    | inr p ↦ rw p (inr (Elem-others a xi xs m n))
  ]

  -- The product of `xj - x` over the points other than `xi`.
  abbrev pub numerator : List F → F → F → F
  numerator xs xi x = product (others xi xs) (λ xj. xj ⊖ x)

  -- The weight of the value at `xi` for the value at `x`.
  abbrev pub weight : List F → F → F → F
  weight xs x xi = numerator xs xi x ⊗ f.recip (numerator xs xi xi)

  differences : (xi : F) (ys : List F) → All (λ y. y ≢ xi) ys → All (λ y. y ⊖ xi ≢ f.zero) ys
  differences xi [] n = tt
  differences xi (y ∷ ys) n = ((λ e. n.0 (sub-eq-zero y xi e)), differences xi ys n.1)

  pub denominator-ne-zero : (xs : List F) (xi : F) → numerator xs xi xi ≢ f.zero
  denominator-ne-zero xs xi = product-ne-zero _ _ (differences xi _ (All-others xi xs))

  weight_self : (xs : List F) (xi : F) → weight xs xi xi ≡ f.one
  weight_self xs xi = f.mul-recip _ (denominator-ne-zero xs xi)

  weight_other : (xs : List F) (x xi : F) → Elem x xs → xi ≢ x → weight xs x xi ≡ f.zero
  weight_other xs x xi m n =
      ap (λ t. t ⊗ f.recip (numerator xs xi xi))
        (product-zero _ _ x (Elem-others x xi xs m n) (f.add-neg x))
      ∙ zero-mul _

  abbrev interpolant : (F → F) → List F → F → F
  interpolant p xs x = sum xs (λ xi. p xi ⊗ weight xs x xi)

  interpolant_at :
      (p : F → F) (xs : List F) (x : F) → Distinct xs → Elem x xs → interpolant p xs x ≡ p x
  interpolant_at p xs x d m =
      sum_single xs (λ xi. p xi ⊗ weight xs x xi) x d m
        (λ y n. ap (f.mul (p y)) (weight_other xs x y m (λ e. n (sym e))) ∙ mul-zero _)
      ∙ ap (f.mul (p x)) (weight_self xs x)
      ∙ f.mul-one _

  IsPolynomial-weight :
      (xs : List F) (a xi : F) → Elem xi xs → IsPolynomial (length xs) (λ x. a ⊗ weight xs x xi)
  IsPolynomial-weight xs a xi m =
      IsPolynomial-congr (λ x. ap (f.mul a) (f.mul_comm _ (f.recip (numerator xs xi xi))))
        (IsPolynomial-weaken (length xs) (length-others-lt xi xs m) (
          IsPolynomial-scale a (
            IsPolynomial-scale (f.recip (numerator xs xi xi))
              (IsPolynomial-product (others xi xs)))))

  -- The weighted values at the points sum to the value at `x`.
  pub interpolation :
      (xs cs : List F) (x : F)
      → Distinct xs
      → length cs ≤ length xs
      → sum xs (λ xi. poly_value cs xi ⊗ weight xs x xi) ≡ poly_value cs x
  interpolation xs cs x d h = sub-eq-zero _ _ (gap_zero x)
    where
      gap : IsPolynomial (length xs) (λ y. interpolant (poly_value cs) xs y ⊖ poly_value cs y)
      gap =
          IsPolynomial-add
            (IsPolynomial-sum xs (λ xi y. poly_value cs xi ⊗ weight xs y xi)
              (All-of_Elem _ xs (λ xi m. IsPolynomial-weight xs (poly_value cs xi) xi m)))
            (IsPolynomial-congr (λ y. sym (neg_one-mul _))
              (IsPolynomial-scale (f.neg f.one)
                (record { coefficients = cs; bound = h; value = λ y. refl })))

      gap_zero : (y : F) → interpolant (poly_value cs) xs y ⊖ poly_value cs y ≡ f.zero
      gap_zero y =
          gap.value y
          ∙ roots_bound xs gap.coefficients gap.bound d
              (All-of_Elem _ xs (λ z m.
                sym (gap.value z)
                ∙ ap (λ t. t ⊖ poly_value cs z) (interpolant_at (poly_value cs) xs z d m)
                ∙ f.add-neg _))
              y
