-- ===== src/Commitments.antt =====
-- The evaluation of a committed polynomial in the exponent: `evaluateCommitmentPolynomial`
-- (pkg/frost/keygen/dkg/round2.go, repeated in keygen/refresh/refresh.go and
-- keygen/repairable/repairable.go), and the loop of `VerifyShare` (pkg/frost/keygen/vss.go) and
-- `VerifySignatureShare` (pkg/frost/signing/participant.go), which does not compute the power
-- after the last.
use go_frost.Common.{◌≡◌, refl, sym, ap, ◌∙◌, List, [], ◌∷◌, map}
use go_frost.Algebra.{Field, ◌⊕◌, ◌⊗◌, zero-add, one-mul, mul-zero}
use go_frost.Algebra.Polynomials.{poly_value}
use go_frost.Errors.{Result, ok, ◌>>=◌}
use go_frost.Group.{Group, IsPrimeOrder}
use go_frost.Group.Scalars.{scalars, plus-base}
use go_frost.Polynomial.{scalar_one}
use go_frost.Polynomial.Lagrange.{scalar_one_lem}
use go_frost.Bytes.{one_bytes}
use go_frost.Bytes.Inverse.{one_bytes-layout}

module _ (g : Group) where
  commitment_loop : g.Scalar → g.Element → g.Scalar → List g.Element → g.Element
  commitment_loop x result x_power [] = result
  commitment_loop x result x_power (c ∷ cs) =
      commitment_loop x (g.plus result (g.scalar_mult c x_power)) (g.mul x_power x) cs

  unfoldable pub evaluate_commitment_polynomial : List g.Element → g.Scalar → Result g.Element
  unfolding commitment_loop
  evaluate_commitment_polynomial [] x = do
    x_power_bytes ← one_bytes g.byte_order g.scalar_length
    ok g.identity
  evaluate_commitment_polynomial (c ∷ cs) x = do
    x_power ← scalar_one g
    ok (commitment_loop x g.identity x_power (c ∷ cs))

  -- `if j < len - 1 { idPower = idPower.Mul(idScalar) }`.
  unfoldable pub share_loop : g.Scalar → g.Element → g.Scalar → List g.Element → g.Element
  share_loop id right id_power [] = right
  share_loop id right id_power (c ∷ []) = g.plus right (g.scalar_mult c id_power)
  share_loop id right id_power (c ∷ d ∷ cs) =
      share_loop id (g.plus right (g.scalar_mult c id_power)) (g.mul id_power id) (d ∷ cs)

  share_loop-commitment_loop :
      (id : g.Scalar) (right : g.Element) (p : g.Scalar) (cs : List g.Element)
      → share_loop id right p cs ≡ commitment_loop id right p cs
  unfolding share_loop commitment_loop
  share_loop-commitment_loop id right p [] = refl
  share_loop-commitment_loop id right p (c ∷ []) = refl
  share_loop-commitment_loop id right p (c ∷ d ∷ cs) =
      share_loop-commitment_loop id (g.plus right (g.scalar_mult c p)) (g.mul p id) (d ∷ cs)

module _ (g : Group) (l : IsPrimeOrder g) where
  instance abbrev field : Field g.Scalar
  field = scalars g l

  step : (a c p x v : g.Scalar) → a ⊕ c ⊗ p ⊕ p ⊗ x ⊗ v ≡ a ⊕ p ⊗ (c ⊕ x ⊗ v)
  step a c p x v = cc (
    field.add_assoc a (c ⊗ p) (p ⊗ x ⊗ v),
    field.mul-add p c (x ⊗ v),
    field.mul_assoc p x v,
    field.mul_comm c p,
  )

  commitment_loop-base :
      (x a p : g.Scalar) (cs : List g.Scalar)
      → commitment_loop g x (g.scalar_base_mult a) p (map g.scalar_base_mult cs)
        ≡ g.scalar_base_mult (a ⊕ p ⊗ poly_value cs x)
  unfolding commitment_loop
  commitment_loop-base x a p [] =
      ap g.scalar_base_mult (sym (ap (g.add a) (mul-zero p) ∙ field.add-zero a))
  commitment_loop-base x a p (c ∷ cs) =
      ap (λ e. commitment_loop g x e (g.mul p x) (map g.scalar_base_mult cs))
        (ap (g.plus (g.scalar_base_mult a)) (l.mult-base c p) ∙ plus-base g l a (g.mul c p))
      ∙ commitment_loop-base x (g.add a (g.mul c p)) (g.mul p x) cs
      ∙ ap g.scalar_base_mult (step a c p x (poly_value cs x))

  from_identity :
      (x : g.Scalar) (cs : List g.Scalar)
      → commitment_loop g x g.identity l.one (map g.scalar_base_mult cs)
        ≡ g.scalar_base_mult (poly_value cs x)
  from_identity x cs =
      ap (λ e. commitment_loop g x e l.one (map g.scalar_base_mult cs)) (sym l.base-zero)
      ∙ commitment_loop-base x g.new_scalar l.one cs
      ∙ ap g.scalar_base_mult (zero-add _ ∙ one-mul _)

  -- The commitments to the coefficients, evaluated at a scalar, commit to the polynomial's value.
  pub evaluate_commitment_polynomial-base :
      (cs : List g.Scalar) (x : g.Scalar)
      → evaluate_commitment_polynomial g (map g.scalar_base_mult cs) x
        ≡ ok (g.scalar_base_mult (poly_value ⦃f = scalars g l⦄ cs x))
  unfolding evaluate_commitment_polynomial
  evaluate_commitment_polynomial-base [] x =
      rw (one_bytes-layout g.byte_order g.scalar_length l.length_bound, l.base-zero)
  evaluate_commitment_polynomial-base (c ∷ cs) x = rw (scalar_one_lem g l, from_identity x (c ∷ cs))

  pub share_loop-base :
      (x : g.Scalar) (cs : List g.Scalar)
      → share_loop g x g.identity l.one (map g.scalar_base_mult cs)
        ≡ g.scalar_base_mult (poly_value ⦃f = scalars g l⦄ cs x)
  share_loop-base x cs = share_loop-commitment_loop g x g.identity l.one _ ∙ from_identity x cs
