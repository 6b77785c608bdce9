-- ===== src/Polynomial/Value.antt =====
-- Horner's loop computes the value of the polynomial.
use mathlib.Core.List.{reverse-cons, reverse-reverse, append_assoc}
use go_frost.Common.{
  ℕ, zero, suc, ◌+◌, ◌≡◌, refl, sym, ap, ◌∙◌, List, [], ◌∷◌, ◌++◌, some, reverse, length, arith,
}
use go_frost.Algebra.{Field, ◌⊕◌, ◌⊗◌, mul-zero}
use go_frost.Algebra.Polynomials.{poly_value}
use go_frost.Errors.{Result, ok, Error, parameter_error}
use go_frost.Group.{Group, IsPrimeOrder}
use go_frost.Group.Scalars.{scalars}
use go_frost.Types.{Polynomial}
use go_frost.Polynomial.{horner_loop, from_highest, evaluate, random_scalars, generate}

module _ (g : Group) (l : IsPrimeOrder g) where
  instance abbrev field : Field g.Scalar
  field = scalars g l

  -- Two top coefficients may be folded into one.
  fold_top :
      (us : List g.Scalar) (c acc x : g.Scalar)
      → poly_value (us ++ (g.add (g.mul acc x) c ∷ [])) x ≡ poly_value (us ++ (c ∷ acc ∷ [])) x
  fold_top [] c acc x = cc (
    mul-zero x,
    field.add-zero (g.add (g.mul acc x) c),
    field.add-zero acc,
    field.mul_comm acc x,
    field.add_comm (g.mul acc x) c,
  )
  fold_top (u ∷ us) c acc x = ap (λ t. u ⊕ x ⊗ t) (fold_top us c acc x)

  horner_loop-poly_value :
      (acc : g.Scalar) (cs : List g.Scalar) (x : g.Scalar)
      → horner_loop g acc cs x ≡ poly_value (reverse cs ++ (acc ∷ [])) x
  unfolding horner_loop
  horner_loop-poly_value acc [] x = sym (ap (g.add acc) (mul-zero x) ∙ field.add-zero acc)
  horner_loop-poly_value acc (c ∷ cs) x =
      horner_loop-poly_value (g.add (g.mul acc x) c) cs x
      ∙ fold_top (reverse cs) c acc x
      ∙ ap (λ t. poly_value t x)
          (sym (append_assoc (reverse cs) (c ∷ []) (acc ∷ []))
            ∙ ap (λ t. t ++ (acc ∷ [])) (sym (reverse-cons c cs)))

  from_highest-poly_value :
      (cs : List g.Scalar) (x : g.Scalar) → from_highest g cs x ≡ poly_value (reverse cs) x
  unfolding from_highest
  from_highest-poly_value [] x = refl
  from_highest-poly_value (c ∷ cs) x =
      horner_loop-poly_value c cs x ∙ ap (λ t. poly_value t x) (sym (reverse-cons c cs))

  -- Evaluation by Horner's rule gives the value of the polynomial, the constant term first, at
  -- every point; the empty polynomial is zero.
  pub evaluate-poly_value :
      (poly : Polynomial g) (x : g.Scalar) → evaluate g poly x ≡ poly_value ⦃f = scalars g l⦄ poly x
  unfolding evaluate
  evaluate-poly_value poly x =
      from_highest-poly_value (reverse poly) x ∙ ap (λ t. poly_value t x) (reverse-reverse poly)

pub random_scalars-length :
    (g : Group) (report : Error → Error) (rng : ℕ → Result g.Scalar) (i n : ℕ) {cs : List g.Scalar}
    → random_scalars g report rng i n ≡ ok cs
    → length cs ≡ n
unfolding random_scalars
random_scalars-length g report rng i zero h = ground arith
random_scalars-length g report rng i (suc n) h =
    grind (arith, random_scalars-length g report rng (i + 1) n)

-- A generated polynomial has the given constant term and `degree + 1` coefficients.
pub generate-length :
    (g : Group) (rng : ℕ → Result g.Scalar) (i : ℕ) (constant_term : g.Scalar) (degree : ℕ)
    {poly : Polynomial g}
    → generate g rng i (some constant_term) degree ≡ ok poly
    → (rest : List g.Scalar) × (poly ≡ constant_term ∷ rest) × (length rest ≡ degree)
unfolding generate
generate-length g rng i c degree h = grind (
  arith,
  random_scalars-length g (parameter_error "coefficients" "failed to generate random scalar") rng i
      degree,
)
