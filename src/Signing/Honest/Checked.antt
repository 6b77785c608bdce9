-- ===== src/Signing/Honest/Checked.antt =====
-- An honest session passes the verification of its shares, against the participants' public keys.
use go_frost.Common.{
  ◌≡◌, ◌≢◌, refl, ◌∙◌, true, some, List, [], ◌∷◌, map, All, All-Elem, Elem, Elem-map, Distinct,
  ==_refl, ne→==-false, inl, inr, ◌↔◌, ◌++◌, false, Bool,
}
use go_frost.Algebra.{Field, ◌⊕◌, ◌⊗◌}
use go_frost.Bytes.{Bytes}
use go_frost.Errors.{ok, Error, fail, signature_share_error, sentinel, Sentinel}
use go_frost.Group.{Suite, IsPrimeOrder}
use go_frost.Group.Scalars.{scalars, same-base, plus-base}
use go_frost.Polynomial.Lagrange.{weight_at_zero, derive-weight}
use go_frost.Types.{VerificationShare, Polynomial, SignatureShare}
use go_frost.Signing.Participant.{find_commitment}
use go_frost.Signing.Aggregator.{find_key, verify_shares}
use go_frost.Signing.Honest.{Signer, IsHonest, commitment_of, commitments_of, factor_of, factor_at}
use go_frost.Signing.Honest.Commit.{get_binding_factor-factor}
use go_frost.Signing.Honest.Sign.{response}

module _ (s : Suite) where
  -- The public key of a participant.
  abbrev pub key_of : Signer s → VerificationShare s.group
  key_of p = record { identifier = p.identifier; verification_key = s.scalar_base_mult p.share }

  find_key-key :
      (ps : List (Signer s)) (p : Signer s)
      → Distinct (map (λ p. p.identifier) ps)
      → Elem p ps
      → find_key s.group (map key_of ps) p.identifier ≡ some (s.scalar_base_mult p.share)
  unfolding find_key
  find_key-key [] p d m = absurd m
  find_key-key (q ∷ qs) p d (inl e) = rw (e, ==_refl q.identifier)
  find_key-key (q ∷ qs) p d (inr m) =
      rw
        (ne→==-false q.identifier p.identifier (
          All-Elem (λ y. q.identifier ≢ y) _ d.0
            (Elem-map (λ (p : Signer s). p.identifier) qs p m)))
        (find_key-key qs p d.1 m)

  pub find_commitment-commitment :
      (ps : List (Signer s)) (p : Signer s)
      → Distinct (map (λ p. p.identifier) ps)
      → Elem p ps
      → find_commitment s.group (commitments_of s ps) p.identifier ≡ some (commitment_of s p)
  unfolding find_commitment
  find_commitment-commitment [] p d m = absurd m
  find_commitment-commitment (q ∷ qs) p d (inl e) = rw (e, ==_refl q.identifier)
  find_commitment-commitment (q ∷ qs) p d (inr m) =
      rw
        (ne→==-false q.identifier p.identifier (
          All-Elem (λ y. q.identifier ≢ y) _ d.0
            (Elem-map (λ (p : Signer s). p.identifier) qs p m)))
        (find_commitment-commitment qs p d.1 m)

module _ (s : Suite) (l : IsPrimeOrder s.group) where
  instance abbrev field : Field s.Scalar
  field = scalars s.group l

  -- The equation that is checked for a share, in the scalars.
  pub share-equation :
      (z h b f k c w : s.Scalar)
      → (s.same (s.scalar_base_mult z) (
            s.plus
              (s.plus (s.scalar_base_mult h) (s.scalar_mult (s.scalar_base_mult b) f))
              (s.scalar_mult (s.scalar_mult (s.scalar_base_mult k) c) w))
          ≡ true)
        ↔ (z ≡ h ⊕ b ⊗ f ⊕ w ⊗ k ⊗ c)
  share-equation z h b f k c w =
      let e : w ⊗ k ⊗ c ≡ k ⊗ c ⊗ w = field.mul_assoc w k c ∙ field.mul_comm w (k ⊗ c) in
      rw
        (
          l.mult-base b f,
          l.mult-base k c,
          l.mult-base (k ⊗ c) w,
          plus-base s.group l h (b ⊗ f),
          plus-base s.group l (h ⊕ b ⊗ f) (k ⊗ c ⊗ w),
          e,
        )
        (same-base s.group l z _)

  refused : (z v : s.Scalar) (b : Bool) → ((b ≡ true) ↔ (z ≡ v)) → z ≢ v → b ≡ false
  refused z v true e n = absurd (n (e.0 refl))
  refused z v false e n = refl

  pub verify_shares-responses :
      (poly : Polynomial s.group) (prefix : Bytes) (c : s.Scalar) (all ps : List (Signer s))
      → All (IsHonest s poly) all
      → Distinct (map (λ p. p.identifier) all)
      → Distinct (map (λ p. p.x) all)
      → All (λ p. Elem p all) ps
      → verify_shares s
          (map (factor_of s prefix) all)
          (commitments_of s all)
          (map (key_of s) all)
          (map (λ p. p.x) all)
          c
          (map (response s l prefix all c) ps)
        ≡ ok tt
  unfolding verify_shares
  verify_shares-responses poly prefix c all [] h d dx m = refl
  verify_shares-responses poly prefix c all (p ∷ ps) h d dx m =
      rw
        (
          find_key-key s all p d m.0,
          get_binding_factor-factor s l prefix all p m.0,
          find_commitment-commitment s all p d m.0,
          (All-Elem (IsHonest s poly) all h m.0).has_scalar,
          derive-weight s.group l _ p.x (Elem-map (λ (p : Signer s). p.x) all p m.0) dx,
          (share-equation _ p.hiding p.binding (factor_at s prefix p.identifier) p.share c
                (weight_at_zero s.group l (map (λ q. q.x) all) p.x)).1
              refl,
        )
        (verify_shares-responses poly prefix c all ps h d dx m.1)

  -- A share with the identifier of a participant and any response.
  abbrev pub share_of : Signer s → s.Scalar → SignatureShare s.group
  share_of p z = record { identifier = p.identifier; signature_share = z }

  -- The error of a wrong share.
  abbrev pub blame : Signer s → Error
  blame p =
      signature_share_error (p.identifier ∷ [])
        "signature share verification failed: sig_share*G != commitment + lambda*pk*challenge"
        (sentinel Sentinel.invalid_signature_share)

  pub verify_shares-wrong :
      (poly : Polynomial s.group) (prefix : Bytes) (c : s.Scalar) (all qs : List (Signer s))
      (p : Signer s) (z : s.Scalar) (rest : List (SignatureShare s.group))
      → All (IsHonest s poly) all
      → Distinct (map (λ p. p.identifier) all)
      → Distinct (map (λ p. p.x) all)
      → All (λ p. Elem p all) qs
      → Elem p all
      → z ≢ (response s l prefix all c p).signature_share
      → verify_shares s
          (map (factor_of s prefix) all)
          (commitments_of s all)
          (map (key_of s) all)
          (map (λ p. p.x) all)
          c
          (map (response s l prefix all c) qs ++ (share_of p z ∷ rest))
        ≡ fail (blame p)
  unfolding verify_shares
  verify_shares-wrong poly prefix c all [] p z rest h d dx m i n = rw (
    find_key-key s all p d i,
    get_binding_factor-factor s l prefix all p i,
    find_commitment-commitment s all p d i,
    (All-Elem (IsHonest s poly) all h i).has_scalar,
    derive-weight s.group l _ p.x (Elem-map (λ (p : Signer s). p.x) all p i) dx,
    refused z (response s l prefix all c p).signature_share _
        (share-equation z p.hiding p.binding (factor_at s prefix p.identifier) p.share c
          (weight_at_zero s.group l (map (λ q. q.x) all) p.x))
        n,
  )
  verify_shares-wrong poly prefix c all (q ∷ qs) p z rest h d dx m i n =
      rw
        (
          find_key-key s all q d m.0,
          get_binding_factor-factor s l prefix all q m.0,
          find_commitment-commitment s all q d m.0,
          (All-Elem (IsHonest s poly) all h m.0).has_scalar,
          derive-weight s.group l _ q.x (Elem-map (λ (p : Signer s). p.x) all q m.0) dx,
          (share-equation _ q.hiding q.binding (factor_at s prefix q.identifier) q.share c
                (weight_at_zero s.group l (map (λ q. q.x) all) q.x)).1
              refl,
        )
        (verify_shares-wrong poly prefix c all qs p z rest h d dx m.1 i n)
