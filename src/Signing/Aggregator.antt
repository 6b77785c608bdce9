-- ===== src/Signing/Aggregator.antt =====
-- pkg/frost/signing/aggregator.go.
pub mod Absent
use go_frost.Common.{ℕ, ltb, ◌==◌, if◌then◌else◌, Option, none, some, List, [], ◌∷◌, length}
use go_frost.Bytes.{Bytes}
use go_frost.Encoding.{identifier_to_scalar, get_participants, validate_commitment_list}
use go_frost.Errors.{
  Result, ok, parameter_error, participant_error, verification_error, signature_share_error,
  sentinel, Sentinel, ◌>>=◌, ◌>>◌, wrap, require, reject_if, accept_if, deref,
}
use go_frost.Group.{Group, Suite}
use go_frost.Polynomial.{derive_interpolating_value}
use go_frost.Types.{
  Identifier, SignatureShare, Signature, VerificationShare, CommitmentList, BindingFactorList,
}
use go_frost.Signing.Binding.{is_empty, compute_binding_factors, get_binding_factor}
use go_frost.Signing.GroupCommitment.{compute_group_commitment}
use go_frost.Signing.Challenge.{compute_challenge}
use go_frost.Signing.Participant.{participant_scalars, find_commitment}

-- `z = z.Add(share.SignatureShare)`.
unfoldable pub sum_shares : (g : Group) → g.Scalar → List (SignatureShare g) → g.Scalar
sum_shares g z [] = z
sum_shares g z (x ∷ xs) = sum_shares g (g.add z x.signature_share) xs

-- The search for a participant's verification key.
unfoldable pub find_key : (g : Group) → List (VerificationShare g) → Identifier → Option g.Element
find_key g [] identifier = none
find_key g (v ∷ vs) identifier =
    if v.identifier == identifier then some v.verification_key else find_key g vs identifier

module _ (s : Suite) where
  -- What `Aggregate` and `AggregateWithVerification` compute first: the binding factors and the
  -- group commitment, which may not be the identity.
  unfoldable pub commit_group :
      Option s.Element
      → CommitmentList s.group
      → Bytes
      → Result (BindingFactorList s.group × s.Element)
  commit_group group_public_key cs msg = do
    factors ← compute_binding_factors s group_public_key cs msg
    group_commitment ← compute_group_commitment s.group cs factors
    reject_if (s.is_identity group_commitment) (
        verification_error "groupCommitment" "group commitment is identity element"
          (sentinel Sentinel.identity_element))
    ok (factors, group_commitment)

  -- `Aggregate`.
  unfoldable pub aggregate :
      ℕ
      → Option s.Element
      → CommitmentList s.group
      → Bytes
      → List (SignatureShare s.group)
      → Result (Signature s.group)
  unfolding commit_group sum_shares
  aggregate min_signers group_public_key cs msg shares = do
    validate_commitment_list s.group cs
    key ←
        require group_public_key
          (parameter_error "groupPublicKey" "cannot be nil" (sentinel Sentinel.invalid_parameters))
    reject_if (ltb (length shares) min_signers) (sentinel Sentinel.insufficient_participants)
    (factors, group_commitment) ← commit_group (some key) cs msg
    ok (record { r = some group_commitment; z = some (sum_shares s.group s.new_scalar shares) })

  -- The loop of `AggregateWithVerification` over the signature shares.
  unfoldable pub verify_shares :
      BindingFactorList s.group
      → CommitmentList s.group
      → List (VerificationShare s.group)
      → List s.Scalar
      → s.Scalar
      → List (SignatureShare s.group)
      → Result (Unit {0})
  unfolding find_key find_commitment
  verify_shares factors cs keys scalars challenge [] = ok tt
  verify_shares factors cs keys scalars challenge (share ∷ shares) = do
    key ← require (find_key s.group keys share.identifier) (
        participant_error share.identifier "verification key not found"
          (sentinel Sentinel.invalid_parameters))
    factor ←
        wrap (participant_error share.identifier "binding factor not found")
          (get_binding_factor s factors share.identifier)
    commitment ← require (find_commitment s.group cs share.identifier) (
        participant_error share.identifier "commitment not found in commitment list"
          (sentinel Sentinel.invalid_commitment))
    share_id ←
        wrap (parameter_error "shareIDScalar" "failed to create")
          (identifier_to_scalar s.group share.identifier)
    lambda ←
        wrap (participant_error share.identifier "failed to compute interpolating value")
          (derive_interpolating_value s.group scalars (some share_id))
    hiding ← deref commitment.hiding_nonce_commitment
    binding ← deref commitment.binding_nonce_commitment
    accept_if
        (s.same (s.scalar_base_mult share.signature_share) (
          s.plus (s.plus hiding (s.scalar_mult binding factor))
            (s.scalar_mult (s.scalar_mult key challenge) lambda)))
        (signature_share_error (share.identifier ∷ [])
          "signature share verification failed: sig_share*G != commitment + lambda*pk*challenge"
          (sentinel Sentinel.invalid_signature_share))
    verify_shares factors cs keys scalars challenge shares

  -- `AggregateWithVerification`.
  unfoldable pub aggregate_with_verification :
      ℕ
      → Option s.Element
      → CommitmentList s.group
      → Bytes
      → List (SignatureShare s.group)
      → List (VerificationShare s.group)
      → Result (Signature s.group)
  unfolding commit_group verify_shares sum_shares
  aggregate_with_verification min_signers group_public_key cs msg shares keys = do
    validate_commitment_list s.group cs
    key ←
        require group_public_key
          (parameter_error "groupPublicKey" "cannot be nil" (sentinel Sentinel.invalid_parameters))
    reject_if (ltb (length shares) min_signers) (sentinel Sentinel.insufficient_participants)
    reject_if (is_empty keys) (
        parameter_error "verificationShares" "cannot be empty for verification"
          (sentinel Sentinel.invalid_parameters))
    (factors, group_commitment) ← commit_group (some key) cs msg
    challenge ←
        wrap (parameter_error "challenge" "failed to compute")
          (compute_challenge s (some group_commitment) (some key) msg)
    scalars ← participant_scalars s.group (get_participants s.group cs)
    verify_shares factors cs keys scalars challenge shares
    ok (record { r = some group_commitment; z = some (sum_shares s.group s.new_scalar shares) })

  -- `Verify`.
  unfoldable pub verify : Bytes → Signature s.group → Option s.Element → Result (Unit {0})
  verify msg signature public_key = do
    r ←
        require signature.r
          (parameter_error "signature.R" "cannot be nil" (sentinel Sentinel.invalid_signature))
    z ←
        require signature.z
          (parameter_error "signature.Z" "cannot be nil" (sentinel Sentinel.invalid_signature))
    key ←
        require public_key
          (parameter_error "publicKey" "cannot be nil" (sentinel Sentinel.invalid_parameters))
    reject_if (s.is_identity r) (
        verification_error "signature" "R is identity element" (sentinel Sentinel.identity_element))
    reject_if (s.is_identity key) (
        parameter_error "publicKey" "public key is identity element"
          (sentinel Sentinel.identity_element))
    challenge ←
        wrap (verification_error "signature" "failed to compute challenge")
          (compute_challenge s (some r) (some key) msg)
    accept_if (s.same (s.scalar_base_mult z) (s.plus r (s.scalar_mult key challenge))) (
        verification_error "signature" "signature verification equation failed"
          (sentinel Sentinel.invalid_signature))
