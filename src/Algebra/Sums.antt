-- ===== src/Algebra/Sums.antt =====
-- Sums and products of a function over a list.
use go_frost.Common.{
  ◌≡◌, ◌≢◌, refl, sym, ap, ap₂, ◌∙◌, List, [], ◌∷◌, map, inl, inr, All, Elem, Distinct, All-Elem,
  All-of_Elem,
}
use go_frost.Algebra.{Field, ◌⊕◌, ◌⊗◌, zero-add, zero-mul, mul-zero, add_interchange, mul-ne-zero}

module _ {F : Type 0} ⦃f : Field F⦄ {A : Type 0} where
  abbrev pub sum : List A → (A → F) → F
  sum [] h = f.zero
  sum (x ∷ xs) h = h x ⊕ sum xs h

  abbrev pub product : List A → (A → F) → F
  product [] h = f.one
  product (x ∷ xs) h = h x ⊗ product xs h

  pub sum_congr : (xs : List A) (h k : A → F) → All (λ x. h x ≡ k x) xs → sum xs h ≡ sum xs k
  sum_congr [] h k e = refl
  sum_congr (x ∷ xs) h k e = ap₂ f.add e.0 (sum_congr xs h k e.1)

  pub sum-add : (xs : List A) (h k : A → F) → sum xs (λ x. h x ⊕ k x) ≡ sum xs h ⊕ sum xs k
  sum-add [] h k = sym (zero-add f.zero)
  sum-add (x ∷ xs) h k =
      ap (f.add (h x ⊕ k x)) (sum-add xs h k) ∙ add_interchange (h x) (k x) (sum xs h) (sum xs k)

  pub mul-sum : (xs : List A) (a : F) (h : A → F) → a ⊗ sum xs h ≡ sum xs (λ x. a ⊗ h x)
  mul-sum [] a h = mul-zero a
  mul-sum (x ∷ xs) a h = f.mul-add a (h x) (sum xs h) ∙ ap (f.add (a ⊗ h x)) (mul-sum xs a h)

  pub product-ne-zero :
      (xs : List A) (h : A → F) → All (λ x. h x ≢ f.zero) xs → product xs h ≢ f.zero
  product-ne-zero [] h n = f.one-ne-zero
  product-ne-zero (x ∷ xs) h n = mul-ne-zero (h x) _ n.0 (product-ne-zero xs h n.1)

  pub product-zero :
      (xs : List A) (h : A → F) (a : A) → Elem a xs → h a ≡ f.zero → product xs h ≡ f.zero
  product-zero [] h a m z = absurd m
  product-zero (x ∷ xs) h a (inl e) z = ap (λ t. t ⊗ product xs h) (sym (ap h e) ∙ z) ∙ zero-mul _
  product-zero (x ∷ xs) h a (inr m) z = ap (f.mul (h x)) (product-zero xs h a m z) ∙ mul-zero _

  pub sum-zero : (xs : List A) (h : A → F) → All (λ x. h x ≡ f.zero) xs → sum xs h ≡ f.zero
  sum-zero [] h z = refl
  sum-zero (x ∷ xs) h z = ap₂ f.add z.0 (sum-zero xs h z.1) ∙ zero-add f.zero

  others_vanish :
      (xs : List A) (h : A → F) (a : A)
      → All (λ y. a ≢ y) xs
      → ((y : A) → a ≢ y → h y ≡ f.zero)
      → All (λ y. h y ≡ f.zero) xs
  others_vanish [] h a d z = tt
  others_vanish (x ∷ xs) h a d z = (z x d.0, others_vanish xs h a d.1 z)

  -- A sum over distinct entries in which only the term of one entry is not zero.
  pub sum_single :
      (xs : List A) (h : A → F) (a : A)
      → Distinct xs
      → Elem a xs
      → ((y : A) → a ≢ y → h y ≡ f.zero)
      → sum xs h ≡ h a
  sum_single [] h a d m z = absurd m
  sum_single (x ∷ xs) h a d (inl e) z =
      ap₂ f.add (ap h (sym e)) (sum-zero xs h (others_vanish xs h a (rw e d.0) z)) ∙ f.add-zero _
  sum_single (x ∷ xs) h a d (inr m) z =
      ap₂ f.add (z x (λ e. All-Elem (λ y. x ≢ y) xs d.0 m (sym e))) (sum_single xs h a d.1 m z)
      ∙ zero-add _

module _ {F : Type 0} ⦃f : Field F⦄ {A B : Type 0} where
  pub sum-map : (x : A → B) (ys : List A) (h : B → F) → sum (map x ys) h ≡ sum ys (λ a. h (x a))
  sum-map x [] h = refl
  sum-map x (a ∷ rest) h = ap (f.add (h (x a))) (sum-map x rest h)

  -- The order of two sums does not matter.
  pub sum_swap :
      (xs : List A) (ys : List B) (h : A → B → F)
      → sum xs (λ a. sum ys (h a)) ≡ sum ys (λ b. sum xs (λ a. h a b))
  sum_swap [] ys h = sym (sum-zero ys (λ b. f.zero) (All-of_Elem _ ys (λ b m. refl)))
  sum_swap (a ∷ rest) ys h =
      ap (f.add (sum ys (h a))) (sum_swap rest ys h)
      ∙ sym (sum-add ys (h a) (λ b. sum rest (λ c. h c b)))
