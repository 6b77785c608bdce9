-- ===== src/Group/Scalars.antt =====
-- The scalars of a prime-order group as a field, and equations between elements as equations
-- between scalars.
use go_frost.Common.{◌≡◌, ◌≢◌, ◌↔◌, sym, ap, ◌∙◌, true, false, Bool-cases, inl, inr}
use go_frost.Errors.{Result, ok, fail, panic}
use go_frost.Algebra.{Field}
use go_frost.Group.{Group, IsPrimeOrder}

abbrev pub or_else {ℓ} : {A : Type ℓ} → A → Result A → A
or_else d (ok a) = a
or_else d (fail e) = d
or_else d panic = d

pub mul-or_else :
    (g : Group) (l : IsPrimeOrder g) (a : g.Scalar)
    → a ≢ g.new_scalar
    → g.mul a (or_else g.new_scalar (g.inv a)) ≡ l.one
mul-or_else g l a n =
    let (b, p, q) = l.inv_lem a n in ap (λ r. g.mul a (or_else g.new_scalar r)) p ∙ q

abbrev pub scalars : (g : Group) → IsPrimeOrder g → Field g.Scalar
scalars g l = record {
  zero = g.new_scalar;
  one = l.one;
  add = g.add;
  mul = g.mul;
  neg = l.neg;
  recip = λ a. or_else g.new_scalar (g.inv a);
  add_assoc = l.add_assoc;
  add_comm = l.add_comm;
  add-zero = l.add-zero;
  add-neg = l.add-neg;
  mul_assoc = l.mul_assoc;
  mul_comm = l.mul_comm;
  mul-one = l.mul-one;
  mul-add = l.mul-add;
  one-ne-zero = l.one-ne-zero;
  mul-recip = mul-or_else g l;
}

module _ (g : Group) (l : IsPrimeOrder g) where
  pub plus-base :
      (a b : g.Scalar)
      → g.plus (g.scalar_base_mult a) (g.scalar_base_mult b) ≡ g.scalar_base_mult (g.add a b)
  plus-base a b = sym (l.base-add a b)

  pub same-base :
      (a b : g.Scalar) → (g.same (g.scalar_base_mult a) (g.scalar_base_mult b) ≡ true) ↔ (a ≡ b)
  same-base a b = (
    λ h. l.base_injective a b ((l.same_iff _ _).0 h),
    λ e. (l.same_iff _ _).1 (ap g.scalar_base_mult e),
  )

  pub sub-zero : (a : g.Scalar) → g.add a (l.neg g.new_scalar) ≡ a
  sub-zero a =
      ap (g.add a) (sym (l.add-zero _) ∙ l.add_comm _ _ ∙ l.add-neg g.new_scalar) ∙ l.add-zero a

  pub equal_false : (a b : g.Scalar) → a ≢ b → g.equal a b ≡ false
  equal_false a b n = elim (Bool-cases (g.equal a b)) [
    | inl e ↦ absurd (n ((l.equal_iff a b).0 e))
    | inr e ↦ e
  ]

  pub is_zero_false : (a : g.Scalar) → a ≢ g.new_scalar → g.is_zero a ≡ false
  is_zero_false a n = elim (Bool-cases (g.is_zero a)) [
    | inl e ↦ absurd (n ((l.is_zero_iff a).0 e))
    | inr e ↦ e
  ]

  pub is_identity_false : (p : g.Element) → p ≢ g.identity → g.is_identity p ≡ false
  is_identity_false p n = elim (Bool-cases (g.is_identity p)) [
    | inl e ↦ absurd (n ((l.is_identity_iff p).0 e))
    | inr e ↦ e
  ]
