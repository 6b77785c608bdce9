-- ===== src/Keygen/Vss/Accepts.antt =====
-- Which shares `VerifyShare` accepts.
use go_frost.Common.{
  ℕ, ◌+◌, ◌≡◌, ◌≢◌, ◌↔◌, refl, sym, ap, ◌∙◌, iff_trans, List, [], ◌∷◌, map, ne→==-false,
}
use go_frost.Algebra.Polynomials.{poly_value}
use go_frost.Commitments.{share_loop-base}
use go_frost.Encoding.{identifier_to_scalar}
use go_frost.Encoding.Scalars.{identifier_to_scalar-one}
use go_frost.Errors.{ok, accept_if_iff}
use go_frost.Group.{Group, IsPrimeOrder}
use go_frost.Group.Scalars.{scalars, same-base}
use go_frost.Polynomial.{evaluate}
use go_frost.Polynomial.Value.{evaluate-poly_value}
use go_frost.Types.{Identifier, Polynomial, VerificationShare}
use go_frost.Keygen.Vss.{commitments_from, create_commitments, keys, verify_share}

module _ (g : Group) (l : IsPrimeOrder g) where
  keys-commitments_from :
      (i : ℕ) (cs : List g.Scalar) → keys g (commitments_from g i cs) ≡ map g.scalar_base_mult cs
  unfolding commitments_from
  keys-commitments_from i [] = refl
  keys-commitments_from i (c ∷ cs) =
      ap (◌∷◌ (g.scalar_base_mult c)) (keys-commitments_from (i + 1) cs)

  -- With commitments to the coefficients `cs`, the equation that is left.
  pub verify_share-poly_value :
      (vs : List (VerificationShare g)) (cs : List g.Scalar) (id : Identifier) (x share : g.Scalar)
      → vs ≢ []
      → keys g vs ≡ map g.scalar_base_mult cs
      → id ≢ 0
      → identifier_to_scalar g id ≡ ok x
      → (verify_share g id share vs ≡ ok tt) ↔ (share ≡ poly_value ⦃f = scalars g l⦄ cs x)
  unfolding verify_share
  verify_share-poly_value [] cs id x share e k n p = absurd (e refl)
  verify_share-poly_value (v ∷ vs) cs id x share e k n p =
      rw (ne→==-false id 0 n, p, identifier_to_scalar-one g l, k, share_loop-base g l x cs)
        (iff_trans (accept_if_iff _ _) (same-base g l share _))

  -- Against the commitments to a polynomial, a share of a participant is accepted exactly when it
  -- is the polynomial's value at the participant's scalar. The identifier is not zero and has a
  -- scalar.
  pub verify_share-evaluate :
      (poly : Polynomial g) (commitments : List (VerificationShare g)) (id : Identifier)
      (x share : g.Scalar)
      → create_commitments g poly ≡ ok commitments
      → id ≢ 0
      → identifier_to_scalar g id ≡ ok x
      → (verify_share g id share commitments ≡ ok tt) ↔ (share ≡ evaluate g poly x)
  unfolding create_commitments commitments_from
  verify_share-evaluate [] commitments id x share h n p = cc
  verify_share-evaluate (c ∷ cs) commitments id x share h n p =
      let e : commitments_from g 0 (c ∷ cs) ≡ commitments = cc in
      rw (evaluate-poly_value g l (c ∷ cs) x) (
        verify_share-poly_value commitments (c ∷ cs) id x share (λ z. cc (e, z))
          (ap (keys g) (sym e) ∙ keys-commitments_from 0 (c ∷ cs)) n p)
