-- ===== src/Keygen/Repair/Weights.antt =====
-- `computeLagrangeCoefficient` computes the Lagrange weight at a general point.
use go_frost.Common.{
  ℕ, ◌+◌, ◌≤◌, ◌<◌, ◌==◌, ◌≡◌, ◌≢◌, inl, inr, refl, sym, ap, ap₂, ◌∙◌, Bool-cases, ne→==-false,
  ==_refl, some, List, [], ◌∷◌, All, Distinct, Elem, arith, false, subst, All-imp, true,
}
use go_frost.Algebra.{
  Field, ◌⊗◌, ◌⊖◌, mul_interchange, mul-recip_unique, one-mul, sub-neg, neg-mul, mul-neg,
  sub-eq-zero,
}
use go_frost.Algebra.Sums.{product, product-ne-zero}
use go_frost.Algebra.Interpolation.{weight, others, numerator, denominator-ne-zero, All-others}
use go_frost.Errors.{ok, bind-eq-ok, require, require-eq-ok}
use go_frost.Group.{Group, IsPrimeOrder}
use go_frost.Group.Scalars.{scalars, equal_false}
use go_frost.Polynomial.Lagrange.{scalar_one_lem}
use go_frost.Keygen.Repair.{find_index, difference_loop, compute_lagrange_coefficient}

module _ (g : Group) (l : IsPrimeOrder g) where
  instance abbrev field : Field g.Scalar
  field = scalars g l

  -- The product of the differences from a point to the coordinates other than `xi`.
  abbrev gaps : List g.Scalar → g.Scalar → g.Scalar → g.Scalar
  gaps xs xi x = product (others g.equal l.equal_iff xi xs) (λ xj. g.sub x xj)

  -- The weight of the value at `xi` for the value at `x`.
  abbrev pub weight_at : List g.Scalar → g.Scalar → g.Scalar → g.Scalar
  weight_at xs x xi = weight g.equal l.equal_iff xs x xi

  find_index-le :
      (xi : g.Scalar) (i k : ℕ) (xs : List g.Scalar) → find_index g xi i xs ≡ some k → i ≤ k
  unfolding find_index
  find_index-le xi i k [] h = cc
  find_index-le xi i k (x ∷ xs) h = ground (arith, find_index-le xi (i + 1) k xs)

  find_index-Elem :
      (xi : g.Scalar) (i : ℕ) (xs : List g.Scalar)
      → Elem xi xs
      → (k : ℕ) × (find_index g xi i xs ≡ some k)
  unfolding find_index
  find_index-Elem xi i [] m = absurd m
  find_index-Elem xi i (x ∷ xs) (inl e) = (i, rw ((l.equal_iff x xi).1 (sym e)))
  find_index-Elem xi i (x ∷ xs) (inr m) = elim (Bool-cases (g.equal x xi)) [
    | inl e ↦ (i, rw e)
    | inr e ↦ let (k, h) = find_index-Elem xi (i + 1) xs m in (k, rw e h)
  ]

  Elem-find_index :
      (xi : g.Scalar) (i k : ℕ) (xs : List g.Scalar) → find_index g xi i xs ≡ some k → Elem xi xs
  unfolding find_index
  Elem-find_index xi i k [] h = cc
  Elem-find_index xi i k (x ∷ xs) h = elim (Bool-cases (g.equal x xi)) [
    | inl e ↦ inl (sym ((l.equal_iff x xi).0 e))
    | inr e ↦ inr (Elem-find_index xi (i + 1) k xs (rw e at h))
  ]

  -- What the loop comes to from index `j` on.
  abbrev Comes : ℕ → g.Scalar → g.Scalar → ℕ → List g.Scalar → Type 0
  Comes k x xi j xs =
      (n d : g.Scalar) → difference_loop g k x xi j xs n d ≡ (n ⊗ gaps xs xi x, d ⊗ gaps xs xi xi)

  Comes-step :
      (k : ℕ) (x xi : g.Scalar) (j : ℕ) (y : g.Scalar) (ys : List g.Scalar)
      → j ≢ k
      → g.equal y xi ≡ false
      → Comes k x xi (j + 1) ys
      → Comes k x xi j (y ∷ ys)
  unfolding difference_loop
  Comes-step k x xi j y ys ne e h n d =
      rw (ne→==-false j k ne, e, difference_loop)
        (h (g.mul n (g.sub x y)) (g.mul d (g.sub xi y))
          ∙ ap₂ (λ a b. (a, b)) (field.mul_assoc n (g.sub x y) _)
              (field.mul_assoc d (g.sub xi y) _))

  Comes-past :
      (k : ℕ) (x xi : g.Scalar) (j : ℕ) (xs : List g.Scalar)
      → k < j
      → All (λ y. xi ≢ y) xs
      → Comes k x xi j xs
  unfolding difference_loop
  Comes-past k x xi j [] b h =
      λ n d. ap₂ (λ a b. (a, b)) (sym (field.mul-one n)) (sym (field.mul-one d))
  Comes-past k x xi j (y ∷ ys) b h =
      Comes-step k x xi j y ys (λ e. omega arith) (equal_false g l y xi (λ e. h.0 (sym e)))
        (Comes-past k x xi (j + 1) ys (omega arith) h.1)

  Comes-found :
      (k : ℕ) (x xi : g.Scalar) (j : ℕ) (xs : List g.Scalar)
      → Distinct xs
      → find_index g xi j xs ≡ some k
      → Comes k x xi j xs
  unfolding difference_loop find_index
  Comes-found k x xi j [] u h = cc
  Comes-found k x xi j (y ∷ ys) u h = elim (Bool-cases (g.equal y xi)) [
    | inl e ↦
        let q : y ≡ xi = (l.equal_iff y xi).0 e in
        let p : j ≡ k = ground arith in
        let t : (j == k) ≡ true = rw p (==_refl k) in
        λ n d.
          rw (e, t, difference_loop)
            (Comes-past k x xi (j + 1) ys (omega arith) (subst (λ t. All (λ z. t ≢ z) ys) q u.0) n
              d)
    | inr e ↦
        let t : find_index g xi (j + 1) ys ≡ some k = rw e at h in
        Comes-step k x xi j y ys (λ p. let b = find_index-le xi (j + 1) k ys t in omega arith) e
          (Comes-found k x xi (j + 1) ys u.1 t)
  ]

  turn : (x y z : g.Scalar) → g.sub x y ⊗ (y ⊖ z) ≡ (y ⊖ x) ⊗ g.sub z y
  turn x y z =
      ap (λ t. t ⊗ (y ⊖ z)) (l.sub_lem x y ∙ sub-neg x y)
      ∙ neg-mul (y ⊖ x) (y ⊖ z)
      ∙ sym (mul-neg (y ⊖ x) (y ⊖ z))
      ∙ ap (g.mul (y ⊖ x)) (sym (sub-neg z y) ∙ sym (l.sub_lem z y))

  -- The two quotients of differences have the same cross products.
  crossed :
      (ys : List g.Scalar) (x z : g.Scalar)
      → product ys (λ y. g.sub x y) ⊗ product ys (λ y. y ⊖ z)
        ≡ product ys (λ y. y ⊖ x) ⊗ product ys (λ y. g.sub z y)
  crossed [] x z = refl
  crossed (y ∷ ys) x z =
      mul_interchange (g.sub x y) _ (y ⊖ z) _
      ∙ ap₂ g.mul (turn x y z) (crossed ys x z)
      ∙ mul_interchange (y ⊖ x) (g.sub z y) _ _

  -- `gaps` over `gaps` is the weight.
  quotient-weight :
      (xs : List g.Scalar) (x xi r : g.Scalar)
      → g.mul (gaps xs xi xi) r ≡ l.one
      → g.mul (gaps xs xi x) r ≡ weight_at xs x xi
  quotient-weight xs x xi r h =
      mul-recip_unique _ _ _ (denominator-ne-zero g.equal l.equal_iff xs xi) product_cancels
    where
      product_cancels :
          g.mul (gaps xs xi x) r ⊗ numerator g.equal l.equal_iff xs xi xi
          ≡ numerator g.equal l.equal_iff xs xi x
      product_cancels = cc (
        field.mul_assoc (gaps xs xi x) r (numerator g.equal l.equal_iff xs xi xi),
        field.mul_comm r (numerator g.equal l.equal_iff xs xi xi),
        sym (field.mul_assoc (gaps xs xi x) (numerator g.equal l.equal_iff xs xi xi) r),
        crossed (others g.equal l.equal_iff xi xs) x xi,
        field.mul_assoc (numerator g.equal l.equal_iff xs xi x) (gaps xs xi xi) r,
        h,
        field.mul-one (numerator g.equal l.equal_iff xs xi x),
      )

  gaps-ne-zero : (xs : List g.Scalar) (xi : g.Scalar) → gaps xs xi xi ≢ g.new_scalar
  gaps-ne-zero xs xi = product-ne-zero _ _ (
      All-imp _ (λ y n e. n (sym (sub-eq-zero xi y (sym (l.sub_lem xi y) ∙ e))))
        (All-others g.equal l.equal_iff xi xs))

  -- For distinct coordinates that include `xi` the result is the Lagrange weight of the value at `xi`
  -- for the value at `x`.
  pub compute_lagrange-weight :
      (xs : List g.Scalar) (x xi : g.Scalar)
      → Elem xi xs
      → Distinct xs
      → compute_lagrange_coefficient g xs x xi ≡ ok (weight_at xs x xi)
  unfolding compute_lagrange_coefficient
  compute_lagrange-weight xs x xi m u =
      let (k, f) = find_index-Elem xi 0 xs m in
      let (r, p, q) = l.inv_lem _ (gaps-ne-zero xs xi) in
      let e : difference_loop g k x xi 0 xs l.one l.one ≡ (gaps xs xi x, gaps xs xi xi) =
        Comes-found k x xi 0 xs u f l.one l.one ∙ ap₂ (λ a b. (a, b)) (one-mul _) (one-mul _) in
      rw (f, scalar_one_lem g l, e, p) (ap ok (quotient-weight xs x xi r q))

  pub compute_lagrange-Elem :
      (xs : List g.Scalar) (x xi w : g.Scalar)
      → compute_lagrange_coefficient g xs x xi ≡ ok w
      → Elem xi xs
  unfolding compute_lagrange_coefficient
  compute_lagrange-Elem xs x xi w h =
      let (k, p, _) = bind-eq-ok (require (find_index g xi 0 xs) _) _ h in
      Elem-find_index xi 0 k xs (require-eq-ok _ _ p)
