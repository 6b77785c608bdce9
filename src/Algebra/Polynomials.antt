-- ===== src/Algebra/Polynomials.antt =====
-- Polynomial functions: closure, and that one with as many roots as coefficients vanishes.
use go_frost.Common.{
  ℕ, suc, ◌≤◌, ◌≡◌, ◌≢◌, refl, sym, ap, ap₂, ◌∙◌, List, [], ◌∷◌, map, length, length-map, All,
  Distinct, arith,
}
use go_frost.Algebra.{
  Field, ◌⊕◌, ◌⊗◌, ◌⊖◌, zero-add, mul-zero, add-mul, add_interchange, mul_left_comm, add-sub_cancel,
  sub-eq-zero, mul-eq-zero, neg-mul, neg_one-mul,
}

module _ {F : Type 0} ⦃f : Field F⦄ where
  -- The value of the polynomial with these coefficients, the constant term first.
  abbrev pub poly_value : List F → F → F
  poly_value [] x = f.zero
  poly_value (c ∷ cs) x = c ⊕ x ⊗ poly_value cs x

  abbrev zip_add : List F → List F → List F
  zip_add [] ds = ds
  zip_add (c ∷ cs) [] = c ∷ cs
  zip_add (c ∷ cs) (d ∷ ds) = (c ⊕ d) ∷ zip_add cs ds

  pub poly_value-zip_add :
      (cs ds : List F) (x : F) → poly_value (zip_add cs ds) x ≡ poly_value cs x ⊕ poly_value ds x
  poly_value-zip_add [] ds x = sym (zero-add _)
  poly_value-zip_add (c ∷ cs) [] x = sym (f.add-zero _)
  poly_value-zip_add (c ∷ cs) (d ∷ ds) x =
      ap (λ t. c ⊕ d ⊕ x ⊗ t) (poly_value-zip_add cs ds x)
      ∙ ap (f.add (c ⊕ d)) (f.mul-add x _ _)
      ∙ add_interchange c d _ _

  length-zip_add :
      (n : ℕ) (cs ds : List F) → length cs ≤ n → length ds ≤ n → length (zip_add cs ds) ≤ n
  length-zip_add n [] ds p q = q
  length-zip_add n (c ∷ cs) [] p q = p
  length-zip_add (suc n) (c ∷ cs) (d ∷ ds) p q = omega (arith, length-zip_add n cs ds)
  length-zip_add ℕ.zero (c ∷ cs) (d ∷ ds) p q = omega arith

  poly_value-scale :
      (a : F) (cs : List F) (x : F) → poly_value (map (λ c. a ⊗ c) cs) x ≡ a ⊗ poly_value cs x
  poly_value-scale a [] x = sym (mul-zero a)
  poly_value-scale a (c ∷ cs) x =
      ap (λ t. a ⊗ c ⊕ x ⊗ t) (poly_value-scale a cs x)
      ∙ ap (f.add (a ⊗ c)) (mul_left_comm x a _)
      ∙ sym (f.mul-add a c _)

  -- A function that is given by `n` coefficients.
  pub record IsPolynomial (n : ℕ) (h : F → F) : Type 0 where
    pub coefficients : List F
    pub bound : length coefficients ≤ n
    pub value : (x : F) → h x ≡ poly_value coefficients x

  pub IsPolynomial-zero : (n : ℕ) → IsPolynomial n (λ _. f.zero)
  IsPolynomial-zero n = record { coefficients = []; bound = omega arith; value = λ x. refl }

  pub IsPolynomial-constant : (a : F) → IsPolynomial 1 (λ _. a)
  IsPolynomial-constant a = record {
    coefficients = a ∷ [];
    bound = omega arith;
    value = λ x. sym (ap (f.add a) (mul-zero x) ∙ f.add-zero a);
  }

  pub IsPolynomial-add :
      {n : ℕ} {h k : F → F} → IsPolynomial n h → IsPolynomial n k → IsPolynomial n (λ x. h x ⊕ k x)
  IsPolynomial-add {n} p q = record {
    coefficients = zip_add p.coefficients q.coefficients;
    bound = length-zip_add n p.coefficients q.coefficients p.bound q.bound;
    value = λ x.
        ap₂ f.add (p.value x) (q.value x)
        ∙ sym (poly_value-zip_add p.coefficients q.coefficients x);
  }

  pub IsPolynomial-scale :
      {n : ℕ} {h : F → F} (a : F) → IsPolynomial n h → IsPolynomial n (λ x. a ⊗ h x)
  IsPolynomial-scale a p = record {
    coefficients = map (λ c. a ⊗ c) p.coefficients;
    bound = omega (arith, length-map (λ (c : F). a ⊗ c) p.coefficients, p.bound);
    value = λ x. ap (f.mul a) (p.value x) ∙ sym (poly_value-scale a p.coefficients x);
  }

  IsPolynomial-shift : {n : ℕ} {h : F → F} → IsPolynomial n h → IsPolynomial (suc n) (λ x. x ⊗ h x)
  IsPolynomial-shift p = record {
    coefficients = f.zero ∷ p.coefficients;
    bound = omega (arith, p.bound);
    value = λ x. ap (f.mul x) (p.value x) ∙ sym (zero-add _);
  }

  pub IsPolynomial-weaken :
      {n : ℕ} {h : F → F} (m : ℕ) → n ≤ m → IsPolynomial n h → IsPolynomial m h
  IsPolynomial-weaken m e p = record {
    coefficients = p.coefficients;
    bound = omega (arith, p.bound);
    value = p.value;
  }

  -- A linear factor raises the degree by one.
  pub IsPolynomial-linear :
      {n : ℕ} {h : F → F} (a : F) → IsPolynomial n h → IsPolynomial (suc n) (λ x. (a ⊖ x) ⊗ h x)
  IsPolynomial-linear {n} {h} a p =
      let q =
        IsPolynomial-add (IsPolynomial-weaken (suc n) (omega arith) (IsPolynomial-scale a p))
          (IsPolynomial-scale (f.neg f.one) (IsPolynomial-shift p)) in
      record { coefficients = q.coefficients; bound = q.bound; value = λ x. split x ∙ q.value x }
    where
      split : (x : F) → (a ⊖ x) ⊗ h x ≡ a ⊗ h x ⊕ f.neg f.one ⊗ (x ⊗ h x)
      split x =
          add-mul a (f.neg x) (h x)
          ∙ ap (f.add (a ⊗ h x)) (neg-mul x (h x) ∙ sym (neg_one-mul (x ⊗ h x)))

  -- Division by a linear factor.
  abbrev quotient : F → List F → List F
  quotient a [] = []
  quotient a (c ∷ []) = []
  quotient a (c ∷ d ∷ ds) = poly_value (d ∷ ds) a ∷ quotient a (d ∷ ds)

  length-quotient : (a : F) (n : ℕ) (cs : List F) → length cs ≤ suc n → length (quotient a cs) ≤ n
  length-quotient a n [] h = omega arith
  length-quotient a n (c ∷ []) h = omega arith
  length-quotient a (suc n) (c ∷ d ∷ ds) h = omega (arith, length-quotient a n (d ∷ ds))
  length-quotient a ℕ.zero (c ∷ d ∷ ds) h = absurd (omega arith)

  divide_step : (c a x p q : F) → c ⊕ x ⊗ (p ⊕ (x ⊖ a) ⊗ q) ≡ c ⊕ a ⊗ p ⊕ (x ⊖ a) ⊗ (p ⊕ x ⊗ q)
  divide_step c a x p q = cc (
    f.mul-add (x ⊖ a) p (x ⊗ q),
    mul_left_comm (x ⊖ a) x q,
    f.add_assoc (c ⊕ a ⊗ p) ((x ⊖ a) ⊗ p) (x ⊗ ((x ⊖ a) ⊗ q)),
    f.add_assoc c (a ⊗ p) ((x ⊖ a) ⊗ p),
    add-mul a (x ⊖ a) p,
    add-sub_cancel a x,
    f.add_assoc c (x ⊗ p) (x ⊗ ((x ⊖ a) ⊗ q)),
    f.mul-add x p ((x ⊖ a) ⊗ q),
  )

  divide :
      (a : F) (cs : List F) (x : F)
      → poly_value cs x ≡ poly_value cs a ⊕ (x ⊖ a) ⊗ poly_value (quotient a cs) x
  divide a [] x = sym (zero-add _ ∙ mul-zero _)
  divide a (c ∷ []) x = simp (mul-zero, f.add-zero)
  divide a (c ∷ d ∷ ds) x =
      ap (λ t. c ⊕ x ⊗ t) (divide a (d ∷ ds) x)
      ∙ divide_step c a x (poly_value (d ∷ ds) a) (poly_value (quotient a (d ∷ ds)) x)

  -- A polynomial with at least as many distinct roots as coefficients is zero everywhere.
  pub roots_bound :
      (xs cs : List F)
      → length cs ≤ length xs
      → Distinct xs
      → All (λ x. poly_value cs x ≡ f.zero) xs
      → (x : F) → poly_value cs x ≡ f.zero
  roots_bound [] [] h d r x = refl
  roots_bound [] (c ∷ cs) h d r x = absurd (omega arith)
  roots_bound (a ∷ bs) cs h d r x =
      divide a cs x
      ∙ ap₂ f.add r.0 (
          ap (f.mul (x ⊖ a)) (
            roots_bound bs (quotient a cs) (length-quotient a (length bs) cs h) d.1
              (roots bs d.0 r.1) x)
          ∙ mul-zero _)
      ∙ zero-add f.zero
    where
      roots :
          (ys : List F)
          → All (λ y. a ≢ y) ys
          → All (λ y. poly_value cs y ≡ f.zero) ys
          → All (λ y. poly_value (quotient a cs) y ≡ f.zero) ys
      roots [] n z = tt
      roots (y ∷ ys) n z = (
        mul-eq-zero (y ⊖ a) _ (λ e. n.0 (sym (sub-eq-zero y a e)))
            (sym (ap (λ t. t ⊕ (y ⊖ a) ⊗ poly_value (quotient a cs) y) r.0 ∙ zero-add _)
              ∙ sym (divide a cs y)
              ∙ z.0),
        roots ys n.1 z.1,
      )
