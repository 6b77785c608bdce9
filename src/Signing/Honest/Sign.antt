-- ===== src/Signing/Honest/Sign.antt =====
-- What `RoundTwo` returns in an honest session.
use go_frost.Common.{
  ℕ, ◌≤◌, ◌≡◌, ◌≢◌, refl, ap, false, ◌&&◌, ltb, some, List, [], ◌∷◌, map, length, length-map, All,
  Elem, Elem-map, Distinct, arith, All-imp, All-Elem, inl, inr,
}
use go_frost.Algebra.{Field, ◌⊕◌, ◌⊗◌}
use go_frost.Algebra.Sums.{sum}
use go_frost.Bytes.{Bytes}
use go_frost.Encoding.{get_participants}
use go_frost.Encoding.Order.{IsIncreasing, IsIncreasing-Distinct, validate-IsIncreasing}
use go_frost.Encoding.Scalars.{HasScalar-Distinct}
use go_frost.Errors.{ok}
use go_frost.Group.{Suite, IsPrimeOrder}
use go_frost.Group.Scalars.{scalars, is_zero_false}
use go_frost.Polynomial.Lagrange.{weight_at_zero, derive-weight}
use go_frost.Types.{SignatureShare, VerificationShare, Polynomial}
use go_frost.Signing.Challenge.{compute_challenge}
use go_frost.Signing.Participant.{participant_scalars, round_two}
use go_frost.Signing.Honest.{
  Signer, IsHonest, commitments_of, nonces_of, nonce_of, session_prefix, session_challenge,
  package_of, commitment_of, sign_all,
}
use go_frost.Signing.Honest.Commit.{
  compute_binding_factors-prefix, get_binding_factor-factor, compute_group_commitment-nonces,
}

pub enough : (mn n : ℕ) → mn ≤ n → (ltb 0 mn && ltb n mn) ≡ false
enough mn n h = ground arith

module _ (s : Suite) (l : IsPrimeOrder s.group) where
  instance abbrev field : Field s.Scalar
  field = scalars s.group l

  pub participants-identifiers :
      (ps : List (Signer s))
      → get_participants s.group (commitments_of s ps) ≡ map (λ p. p.identifier) ps
  unfolding get_participants
  participants-identifiers [] = refl
  participants-identifiers (p ∷ ps) = ap (◌∷◌ p.identifier) (participants-identifiers ps)

  pub participant_scalars-x :
      (poly : Polynomial s.group) (ps : List (Signer s))
      → All (IsHonest s poly) ps
      → participant_scalars s.group (map (λ p. p.identifier) ps) ≡ ok (map (λ p. p.x) ps)
  unfolding participant_scalars
  participant_scalars-x poly [] h = refl
  participant_scalars-x poly (p ∷ ps) h = rw (h.0.has_scalar, participant_scalars-x poly ps h.1)

  pub scalars-Distinct :
      (poly : Polynomial s.group) (ps : List (Signer s))
      → All (IsHonest s poly) ps
      → Distinct (map (λ p. p.identifier) ps)
      → Distinct (map (λ p. p.x) ps)
  scalars-Distinct poly ps h d =
      HasScalar-Distinct s.group l (λ p. p.identifier) (λ p. p.x) ps
        (All-imp ps (λ p q. (q.small, q.has_scalar)) h) d

  pub challenge-session :
      (key : s.Element) (r : s.Scalar) (msg : Bytes)
      → session_challenge s key r msg ≢ s.new_scalar
      → compute_challenge s (some (s.scalar_base_mult r)) (some key) msg
        ≡ ok (session_challenge s key r msg)
  unfolding compute_challenge
  challenge-session key r msg n = rw (is_zero_false s.group l _ n)

  -- A participant's response for the challenge `c`.
  abbrev pub response : Bytes → List (Signer s) → s.Scalar → Signer s → SignatureShare s.group
  response prefix ps c p = record {
    identifier = p.identifier;
    signature_share =
        nonce_of s prefix p ⊕ weight_at_zero s.group l (map (λ q. q.x) ps) p.x ⊗ p.share ⊗ c;
  }

  -- In an honest session, unless the challenge is zero, `RoundTwo` returns each participant's nonces,
  -- the binding one times its binding factor, plus its share of the key times its Lagrange weight
  -- times the challenge.
  pub round_two-response :
      (poly : Polynomial s.group) (key : s.Element) (mn : ℕ)
      (shares : List (VerificationShare s.group)) (msg : Bytes) (q : Signer s)
      (qs : List (Signer s)) (p : Signer s)
      → All (IsHonest s poly) (q ∷ qs)
      → IsIncreasing (map (λ p. p.identifier) (q ∷ qs))
      → mn ≤ length (q ∷ qs)
      → session_challenge s key (sum (q ∷ qs) (nonce_of s (session_prefix s key (q ∷ qs) msg))) msg
        ≢ s.new_scalar
      → Elem p (q ∷ qs)
      → round_two s (package_of s key mn shares p) (nonces_of s p) msg (commitments_of s (q ∷ qs))
        ≡ ok (
            response
              (session_prefix s key (q ∷ qs) msg)
              (q ∷ qs)
              (session_challenge s key
                (sum (q ∷ qs) (nonce_of s (session_prefix s key (q ∷ qs) msg)))
                msg)
              p)
  unfolding round_two
  round_two-response poly key mn shares msg q qs p h i n c m = rw (
    (validate-IsIncreasing s.group (commitments_of s (q ∷ qs))).1
        (rw (participants-identifiers (q ∷ qs)) i),
    enough mn (length (commitments_of s (q ∷ qs)))
        (omega (arith, length-map (commitment_of s) qs, n)),
    compute_binding_factors-prefix s l key q qs msg,
    compute_group_commitment-nonces s l poly _ q qs h,
    participants-identifiers (q ∷ qs),
    participant_scalars-x poly (q ∷ qs) h,
    (All-Elem (IsHonest s poly) (q ∷ qs) h m).has_scalar,
    derive-weight s.group l _ p.x (Elem-map (λ (p : Signer s). p.x) (q ∷ qs) p m) (
        scalars-Distinct poly (q ∷ qs) h
          (IsIncreasing-Distinct (map (λ p. p.identifier) (q ∷ qs)) i)),
    challenge-session key _ msg c,
    get_binding_factor-factor s l _ (q ∷ qs) p m,
  )

  pub sign_all-responses :
      (key : s.Element) (mn : ℕ) (msg prefix : Bytes) (all ps : List (Signer s)) (c : s.Scalar)
      → ((p : Signer s)
          → Elem p ps
          → round_two s (package_of s key mn [] p) (nonces_of s p) msg (commitments_of s all)
            ≡ ok (response prefix all c p))
      → sign_all s key mn msg (commitments_of s all) ps ≡ ok (map (response prefix all c) ps)
  unfolding sign_all
  sign_all-responses key mn msg prefix all [] c h = refl
  sign_all-responses key mn msg prefix all (p ∷ ps) c h =
      rw (h p (inl refl), sign_all-responses key mn msg prefix all ps c (λ q m. h q (inr m)))
