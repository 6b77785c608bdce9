-- ===== src/Signing/Honest/Verify.antt =====
-- An honest session ends in a signature that verifies.
use go_frost.Common.{
  ℕ, ◌≤◌, ◌≡◌, ◌≢◌, sym, ap, ◌∙◌, le→ltb-false, some, List, [], ◌∷◌, map, length, length-map, All,
  All-imp, arith, All-of_Elem, iff_trans, ◌↔◌,
}
use go_frost.Algebra.{Field, ◌⊕◌, ◌⊗◌, zero-add}
use go_frost.Algebra.Sums.{sum, sum-add, mul-sum, sum_congr}
use go_frost.Bytes.{Bytes}
use go_frost.Encoding.Order.{IsIncreasing, IsIncreasing-Distinct, validate-IsIncreasing}
use go_frost.Errors.{ok, ◌>>=◌, accept_if_iff}
use go_frost.Group.{Suite, IsPrimeOrder}
use go_frost.Group.Scalars.{scalars, same-base, plus-base, is_identity_false}
use go_frost.Keygen.Reconstruct.Secret.{lagrange_sum}
use go_frost.Polynomial.Lagrange.{weight_at_zero}
use go_frost.Signing.Aggregator.{sum_shares, commit_group, aggregate, verify}
use go_frost.Signing.Honest.{
  Signer, IsHonest, commitments_of, nonce_of, session_prefix, session_challenge, sign_all,
  factor_of,
}
use go_frost.Signing.Honest.Commit.{
  compute_binding_factors-prefix, compute_group_commitment-nonces, base-ne-identity,
}
use go_frost.Signing.Honest.Sign.{
  participants-identifiers, scalars-Distinct, challenge-session, response, round_two-response,
  sign_all-responses,
}

module _ (s : Suite) (l : IsPrimeOrder s.group) where
  instance abbrev field : Field s.Scalar
  field = scalars s.group l

  pub sum_shares-sum :
      (z : s.Scalar) (prefix : Bytes) (all ps : List (Signer s)) (c : s.Scalar)
      → sum_shares s.group z (map (response s l prefix all c) ps)
        ≡ z ⊕ sum ps (λ p. (response s l prefix all c p).signature_share)
  unfolding sum_shares
  sum_shares-sum z prefix all [] c = sym (field.add-zero z)
  sum_shares-sum z prefix all (p ∷ ps) c =
      sum_shares-sum (s.add z (response s l prefix all c p).signature_share) prefix all ps c
      ∙ field.add_assoc z _ _

  -- The responses sum to the group nonce and the challenge times the secret.
  pub responses-sum :
      (k : s.Scalar) (cs : List s.Scalar) (prefix : Bytes) (ps : List (Signer s)) (c : s.Scalar)
      → All (IsHonest s (k ∷ cs)) ps
      → IsIncreasing (map (λ p. p.identifier) ps)
      → length (k ∷ cs) ≤ length ps
      → sum ps (λ p. (response s l prefix ps c p).signature_share)
        ≡ sum ps (nonce_of s prefix) ⊕ k ⊗ c
  responses-sum k cs prefix ps c h i n =
      let x : Signer s → s.Scalar = λ p. p.x in
      sum-add ps (nonce_of s prefix) (λ p. weight_at_zero s.group l (map x ps) p.x ⊗ p.share ⊗ c)
      ∙ ap (field.add (sum ps (nonce_of s prefix))) (
          sum_congr ps _ (λ p. c ⊗ (p.share ⊗ weight_at_zero s.group l (map x ps) p.x))
            (All-of_Elem _ ps
              (λ p _. field.mul_comm _ c ∙ ap (field.mul c) (field.mul_comm _ p.share)))
          ∙ sym (mul-sum ps c (λ p. p.share ⊗ weight_at_zero s.group l (map x ps) p.x))
          ∙ ap (field.mul c) (
              lagrange_sum s.group l x (λ p. p.share) k cs ps (All-imp ps (λ p q. q.has_share) h)
                (scalars-Distinct s l (k ∷ cs) ps h
                  (IsIncreasing-Distinct (map (λ p. p.identifier) ps) i))
                n)
          ∙ field.mul_comm c k)

  pub commit_group-nonces :
      (poly : List s.Scalar) (key : s.Element) (msg : Bytes) (q : Signer s) (qs : List (Signer s))
      → All (IsHonest s poly) (q ∷ qs)
      → sum (q ∷ qs) (nonce_of s (session_prefix s key (q ∷ qs) msg)) ≢ s.new_scalar
      → commit_group s (some key) (commitments_of s (q ∷ qs)) msg
        ≡ ok (
          map (factor_of s (session_prefix s key (q ∷ qs) msg)) (q ∷ qs),
          s.scalar_base_mult (sum (q ∷ qs) (nonce_of s (session_prefix s key (q ∷ qs) msg))),
        )
  unfolding commit_group
  commit_group-nonces poly key msg q qs h r = rw (
    compute_binding_factors-prefix s l key q qs msg,
    compute_group_commitment-nonces s l poly _ q qs h,
    is_identity_false s.group l _ (base-ne-identity s l _ r),
  )

  -- Unless the secret key, the nonce or the challenge is zero, `Verify` accepts a signature with the
  -- commitment to the nonce exactly when its response is the nonce plus the secret key times the
  -- challenge.
  pub verify-response :
      (k r z : s.Scalar) (msg : Bytes)
      → k ≢ s.new_scalar
      → r ≢ s.new_scalar
      → session_challenge s (s.scalar_base_mult k) r msg ≢ s.new_scalar
      → (verify s msg
            (record { r = some (s.scalar_base_mult r); z = some z })
            (some (s.scalar_base_mult k))
          ≡ ok tt)
        ↔ (z ≡ s.add r (s.mul k (session_challenge s (s.scalar_base_mult k) r msg)))
  unfolding verify
  verify-response k r z msg nk nr nc =
      rw
        (
          is_identity_false s.group l _ (base-ne-identity s l r nr),
          is_identity_false s.group l _ (base-ne-identity s l k nk),
          challenge-session s l (s.scalar_base_mult k) r msg nc,
          l.mult-base k (session_challenge s (s.scalar_base_mult k) r msg),
          plus-base s.group l r,
        )
        (iff_trans (accept_if_iff _ _) (same-base s.group l z _))

  -- At least threshold many participants hold shares of a secret key and follow the protocol, their
  -- identifiers increasing along the commitment list. Unless the key, the sum of the nonces or the
  -- challenge is zero, `RoundTwo` succeeds for each of them, `Aggregate` returns a signature, and
  -- `Verify` accepts it under the public key.
  pub session-verify :
      (k : s.Scalar) (cs : List s.Scalar) (mn : ℕ) (msg : Bytes) (q : Signer s)
      (qs : List (Signer s))
      → All (IsHonest s (k ∷ cs)) (q ∷ qs)
      → IsIncreasing (map (λ p. p.identifier) (q ∷ qs))
      → length (k ∷ cs) ≤ length (q ∷ qs)
      → mn ≤ length (q ∷ qs)
      → k ≢ s.new_scalar
      → sum ⦃f = scalars s.group l⦄
          (q ∷ qs)
          (nonce_of s (session_prefix s (s.scalar_base_mult k) (q ∷ qs) msg))
        ≢ s.new_scalar
      → session_challenge s
          (s.scalar_base_mult k)
          (sum ⦃f = scalars s.group l⦄
            (q ∷ qs)
            (nonce_of s (session_prefix s (s.scalar_base_mult k) (q ∷ qs) msg)))
          msg
        ≢ s.new_scalar
      → (do
        shares ← sign_all s (s.scalar_base_mult k) mn msg (commitments_of s (q ∷ qs)) (q ∷ qs)
        signature ←
            aggregate s mn (some (s.scalar_base_mult k)) (commitments_of s (q ∷ qs)) msg shares
        verify s msg signature (some (s.scalar_base_mult k)))
        ≡ ok tt
  unfolding aggregate
  session-verify k cs mn msg q qs h i n m nk nr nc =
      let key = s.scalar_base_mult k in
      let prefix = session_prefix s key (q ∷ qs) msg in
      let r = sum (q ∷ qs) (nonce_of s prefix) in
      let c = session_challenge s key r msg in
      rw
        (
          sign_all-responses s l key mn msg prefix (q ∷ qs) (q ∷ qs) c
              (λ p e. round_two-response s l (k ∷ cs) key mn [] msg q qs p h i m nc e),
          (validate-IsIncreasing s.group (commitments_of s (q ∷ qs))).1
              (rw (participants-identifiers s l (q ∷ qs)) i),
          le→ltb-false (length (map (response s l prefix (q ∷ qs) c) (q ∷ qs))) mn
              (omega (arith, length-map (response s l prefix (q ∷ qs) c) qs, m)),
          commit_group-nonces (k ∷ cs) key msg q qs h nr,
        )
        ((verify-response k r _ msg nk nr nc).1 (
          sum_shares-sum s.new_scalar prefix (q ∷ qs) (q ∷ qs) c
          ∙ zero-add _
          ∙ responses-sum k cs prefix (q ∷ qs) c h i n))
