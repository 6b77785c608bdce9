-- ===== src/Algebra.antt =====
-- The algebra behind the protocol: fields, sums, polynomial functions and interpolation. Nothing
-- here is code of the repository; the components' proofs stand on it.
pub mod Sums
pub mod Polynomials
pub mod Interpolation
use go_frost.Common.{◌≡◌, ◌≢◌, sym, ap, ap₂, ◌∙◌, ◌≡⟨◌⟩◌, ◌∎, refl}

pub record Field (F : Type 0) : Type 0 where
  pub zero : F
  pub one : F
  pub add : F → F → F
  pub mul : F → F → F
  pub neg : F → F
  pub recip : F → F
  pub add_assoc : (a b c : F) → add (add a b) c ≡ add a (add b c)
  pub add_comm : (a b : F) → add a b ≡ add b a
  pub add-zero : (a : F) → add a zero ≡ a
  pub add-neg : (a : F) → add a (neg a) ≡ zero
  pub mul_assoc : (a b c : F) → mul (mul a b) c ≡ mul a (mul b c)
  pub mul_comm : (a b : F) → mul a b ≡ mul b a
  pub mul-one : (a : F) → mul a one ≡ a
  pub mul-add : (a b c : F) → mul a (add b c) ≡ add (mul a b) (mul a c)
  pub one-ne-zero : one ≢ zero
  pub mul-recip : (a : F) → a ≢ zero → mul a (recip a) ≡ one

module _ {F : Type 0} ⦃f : Field F⦄ where
  infixl 65 ◌⊕◌ ◌⊖◌
  infixl 70 ◌⊗◌
  abbrev pub ◌⊕◌ : F → F → F
  ◌⊕◌ = f.add

  abbrev pub ◌⊗◌ : F → F → F
  ◌⊗◌ = f.mul

  abbrev pub ◌⊖◌ : F → F → F
  a ⊖ b = f.add a (f.neg b)

  pub zero-add : (a : F) → f.zero ⊕ a ≡ a
  zero-add a = f.add_comm f.zero a ∙ f.add-zero a

  pub neg-add : (a : F) → f.neg a ⊕ a ≡ f.zero
  neg-add a = f.add_comm _ a ∙ f.add-neg a

  pub one-mul : (a : F) → f.one ⊗ a ≡ a
  one-mul a = f.mul_comm f.one a ∙ f.mul-one a

  pub add-mul : (a b c : F) → (a ⊕ b) ⊗ c ≡ a ⊗ c ⊕ b ⊗ c
  add-mul a b c = f.mul_comm _ c ∙ f.mul-add c a b ∙ ap₂ f.add (f.mul_comm c a) (f.mul_comm c b)

  pub add_interchange : (a b c d : F) → (a ⊕ b) ⊕ (c ⊕ d) ≡ (a ⊕ c) ⊕ (b ⊕ d)
  add_interchange a b c d = cc (
    f.add_assoc a b (c ⊕ d),
    f.add_assoc b c d,
    f.add_comm b c,
    f.add_assoc c b d,
    f.add_assoc a c (b ⊕ d),
  )

  pub add_left_cancel : (a b c : F) → a ⊕ b ≡ a ⊕ c → b ≡ c
  add_left_cancel a b c h =
      b
      ≡⟨ sym (zero-add b) ⟩ f.zero ⊕ b
      ≡⟨ ap (λ t. t ⊕ b) (sym (neg-add a)) ⟩ f.neg a ⊕ a ⊕ b
      ≡⟨ f.add_assoc _ a b ∙ ap (f.add (f.neg a)) h ∙ sym (f.add_assoc _ a c) ⟩ f.neg a ⊕ a ⊕ c
      ≡⟨ ap (λ t. t ⊕ c) (neg-add a) ∙ zero-add c ⟩ c ∎

  pub add-sub_cancel : (a b : F) → a ⊕ (b ⊖ a) ≡ b
  add-sub_cancel a b =
      ap (f.add a) (f.add_comm b _)
      ∙ sym (f.add_assoc a _ b)
      ∙ ap (λ t. t ⊕ b) (f.add-neg a)
      ∙ zero-add b

  pub sub-eq-zero : (a b : F) → a ⊖ b ≡ f.zero → a ≡ b
  sub-eq-zero a b h = sym (add-sub_cancel b a) ∙ ap (f.add b) h ∙ f.add-zero b

  -- A difference turned round.
  pub sub-neg : (a b : F) → a ⊖ b ≡ f.neg (b ⊖ a)
  sub-neg a b = add_left_cancel (b ⊖ a) _ _ (
      f.add_assoc b (f.neg a) (a ⊖ b)
      ∙ ap (f.add b) (
          sym (f.add_assoc (f.neg a) a (f.neg b))
          ∙ ap (λ t. t ⊕ f.neg b) (neg-add a)
          ∙ zero-add (f.neg b))
      ∙ f.add-neg b
      ∙ sym (f.add-neg (b ⊖ a)))

  pub mul-zero : (a : F) → a ⊗ f.zero ≡ f.zero
  mul-zero a =
      add_left_cancel (a ⊗ f.zero) _ _
        (sym (f.mul-add a f.zero f.zero) ∙ ap (f.mul a) (f.add-zero f.zero) ∙ sym (f.add-zero _))

  pub zero-mul : (a : F) → f.zero ⊗ a ≡ f.zero
  zero-mul a = f.mul_comm f.zero a ∙ mul-zero a

  pub mul-neg : (a b : F) → a ⊗ f.neg b ≡ f.neg (a ⊗ b)
  mul-neg a b =
      add_left_cancel (a ⊗ b) _ _ (
        sym (f.mul-add a b (f.neg b)) ∙ ap (f.mul a) (f.add-neg b) ∙ mul-zero a ∙ sym (f.add-neg _))

  pub neg-mul : (a b : F) → f.neg a ⊗ b ≡ f.neg (a ⊗ b)
  neg-mul a b = f.mul_comm _ b ∙ mul-neg b a ∙ ap f.neg (f.mul_comm b a)

  pub neg_one-mul : (a : F) → f.neg f.one ⊗ a ≡ f.neg a
  neg_one-mul a = neg-mul f.one a ∙ ap f.neg (one-mul a)

  pub mul_left_comm : (a b c : F) → a ⊗ (b ⊗ c) ≡ b ⊗ (a ⊗ c)
  mul_left_comm a b c = cc (f.mul_assoc a b c, f.mul_comm a b, f.mul_assoc b a c)

  pub mul_interchange : (a b c d : F) → (a ⊗ b) ⊗ (c ⊗ d) ≡ (a ⊗ c) ⊗ (b ⊗ d)
  mul_interchange a b c d =
      f.mul_assoc a b _ ∙ ap (f.mul a) (mul_left_comm b c d) ∙ sym (f.mul_assoc a c _)

  -- A field has no zero divisors.
  pub mul-eq-zero : (a b : F) → a ≢ f.zero → a ⊗ b ≡ f.zero → b ≡ f.zero
  mul-eq-zero a b n h =
      b
      ≡⟨ sym (one-mul b) ⟩ f.one ⊗ b
      ≡⟨ ap (λ t. t ⊗ b) (sym (f.mul-recip a n) ∙ f.mul_comm a _) ⟩ f.recip a ⊗ a ⊗ b
      ≡⟨ f.mul_assoc _ a b ∙ ap (f.mul (f.recip a)) h ∙ mul-zero _ ⟩ f.zero ∎

  pub mul-ne-zero : (a b : F) → a ≢ f.zero → b ≢ f.zero → a ⊗ b ≢ f.zero
  mul-ne-zero a b na nb h = nb (mul-eq-zero a b na h)

  -- A quotient is determined by its product with the divisor.
  pub mul-recip_unique : (w d n : F) → d ≢ f.zero → w ⊗ d ≡ n → w ≡ n ⊗ f.recip d
  mul-recip_unique w d n nz h =
      sym (f.mul-one w)
      ∙ ap (f.mul w) (sym (f.mul-recip d nz))
      ∙ sym (f.mul_assoc w d _)
      ∙ ap (λ t. t ⊗ f.recip d) h

  recip-mul_cancel : (a b : F) → a ≢ f.zero → f.recip a ⊗ (a ⊗ b) ≡ b
  recip-mul_cancel a b n =
      sym (f.mul_assoc _ a b) ∙ ap (λ t. t ⊗ b) (f.mul_comm _ a ∙ f.mul-recip a n) ∙ one-mul b

  pub mul_left_cancel : (a b c : F) → a ≢ f.zero → a ⊗ b ≡ a ⊗ c → b ≡ c
  mul_left_cancel a b c n h =
      sym (recip-mul_cancel a b n) ∙ ap (f.mul (f.recip a)) h ∙ recip-mul_cancel a c n
