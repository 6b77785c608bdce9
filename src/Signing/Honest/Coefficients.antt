-- ===== src/Signing/Honest/Coefficients.antt =====
-- What `VerifySignatureShare` takes the verification shares of a key package for.
use go_frost.Common.{
  ℕ, ◌≡◌, ◌≢◌, ◌↔◌, ◌∙◌, iff_trans, List, ◌∷◌, map, All, All-Elem, Elem, Elem-map,
}
use go_frost.Algebra.{Field}
use go_frost.Algebra.Sums.{sum}
use go_frost.Bytes.{Bytes}
use go_frost.Commitments.{share_loop-base}
use go_frost.Encoding.Order.{IsIncreasing, IsIncreasing-Distinct, validate-IsIncreasing}
use go_frost.Encoding.Scalars.{identifier_to_scalar-one}
use go_frost.Errors.{ok, accept_if_iff}
use go_frost.Group.{Suite, IsPrimeOrder}
use go_frost.Group.Scalars.{scalars}
use go_frost.Polynomial.{evaluate}
use go_frost.Polynomial.Value.{evaluate-poly_value}
use go_frost.Polynomial.Lagrange.{weight_at_zero, derive-weight}
use go_frost.Types.{VerificationShare, Polynomial}
use go_frost.Signing.Participant.{verify_signature_share}
use go_frost.Signing.Honest.{
  Signer, IsHonest, commitments_of, nonce_of, session_prefix, session_challenge, package_of,
  factor_at,
}
use go_frost.Signing.Honest.Commit.{
  compute_binding_factors-prefix, get_binding_factor-factor, compute_group_commitment-nonces,
}
use go_frost.Signing.Honest.Sign.{
  participants-identifiers, participant_scalars-x, scalars-Distinct, challenge-session,
}
use go_frost.Signing.Honest.Checked.{share-equation, find_commitment-commitment, share_of}

module _ (s : Suite) (l : IsPrimeOrder s.group) where
  instance abbrev field : Field s.Scalar
  field = scalars s.group l

  -- In a session with a commitment list of honest participants whose challenge is not zero,
  -- `VerifySignatureShare` with a key package whose verification shares are, in their order, the
  -- public keys of the scalars `ks` accepts the response `z` of the participant `p` exactly when it
  -- is the right one for the share that the polynomial with the coefficients `ks` has at `p`.
  pub verify_signature_share-coefficients :
      (poly : Polynomial s.group) (key : s.Element) (mn : ℕ)
      (shares : List (VerificationShare s.group)) (ks : List s.Scalar) (msg : Bytes) (q : Signer s)
      (qs : List (Signer s)) (verifier p : Signer s) (z c : s.Scalar)
      → map (λ v. v.verification_key) shares ≡ map s.scalar_base_mult ks
      → c
        ≡ session_challenge s key
            (sum ⦃f = scalars s.group l⦄ (q ∷ qs) (nonce_of s (session_prefix s key (q ∷ qs) msg)))
            msg
      → All (IsHonest s poly) (q ∷ qs)
      → IsIncreasing (map (λ p. p.identifier) (q ∷ qs))
      → c ≢ s.new_scalar
      → Elem p (q ∷ qs)
      → (verify_signature_share s
            (package_of s key mn shares verifier)
            (share_of s l p z)
            msg
            (commitments_of s (q ∷ qs))
          ≡ ok tt)
        ↔ (z
            ≡ s.add (nonce_of s (session_prefix s key (q ∷ qs) msg) p) (
                s.mul
                  (s.mul
                    (weight_at_zero s.group l (map (λ p. p.x) (q ∷ qs)) p.x)
                    (evaluate s.group ks p.x))
                  c))
  unfolding verify_signature_share
  verify_signature_share-coefficients poly key mn shares ks msg q qs verifier p z c es ec h i nc m =
      let prefix = session_prefix s key (q ∷ qs) msg in
      let d = IsIncreasing-Distinct (map (λ p. p.identifier) (q ∷ qs)) i in
      rw
        (
          (validate-IsIncreasing s.group (commitments_of s (q ∷ qs))).1
              (rw (participants-identifiers s l (q ∷ qs)) i),
          compute_binding_factors-prefix s l key q qs msg,
          compute_group_commitment-nonces s l poly _ q qs h,
          participants-identifiers s l (q ∷ qs),
          participant_scalars-x s l poly (q ∷ qs) h,
          (All-Elem (IsHonest s poly) (q ∷ qs) h m).has_scalar,
          derive-weight s.group l _ p.x (Elem-map (λ (p : Signer s). p.x) (q ∷ qs) p m)
              (scalars-Distinct s l poly (q ∷ qs) h d),
          challenge-session s l key _ msg (λ e. nc (ec ∙ e)),
          get_binding_factor-factor s l _ (q ∷ qs) p m,
          find_commitment-commitment s (q ∷ qs) p d m,
          identifier_to_scalar-one s.group l,
          es,
          share_loop-base s.group l p.x ks,
          ← ec,
          ← evaluate-poly_value s.group l ks p.x,
        )
        (iff_trans (accept_if_iff _ _) (
          share-equation s l z p.hiding p.binding (factor_at s prefix p.identifier)
            (evaluate s.group ks p.x) c (weight_at_zero s.group l (map (λ p. p.x) (q ∷ qs)) p.x)))
