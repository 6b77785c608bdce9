-- ===== src/Signing/Participant.antt =====
-- pkg/frost/signing/participant.go.
pub mod Nonces
use go_frost.Common.{
  ◌&&◌, ltb, ◌==◌, if◌then◌else◌, Option, none, some, List, [], ◌∷◌, ◌++◌, length, map,
}
use go_frost.Bytes.{Bytes}
use go_frost.Commitments.{share_loop}
use go_frost.Encoding.{identifier_to_scalar, get_participants, validate_commitment_list}
use go_frost.Errors.{
  Result, ok, parameter_error, participant_error, verification_error, sentinel, Sentinel, ◌>>=◌,
  ◌>>◌, wrap, require, reject_if, accept_if, must, deref,
}
use go_frost.Group.{Group, Suite}
use go_frost.Polynomial.{derive_interpolating_value}
use go_frost.Types.{
  Identifier, SigningCommitments, SigningNonces, SignatureShare, KeyPackage, CommitmentList,
}
use go_frost.Signing.Binding.{compute_binding_factors, get_binding_factor}
use go_frost.Signing.GroupCommitment.{compute_group_commitment}
use go_frost.Signing.Challenge.{compute_challenge}

-- The loop that fills `participantScalars`.
unfoldable pub participant_scalars : (g : Group) → List Identifier → Result (List g.Scalar)
participant_scalars g [] = ok []
participant_scalars g (id ∷ ids) = do
  scalar ← wrap (parameter_error "participantScalar" "failed to create") (identifier_to_scalar g id)
  rest ← participant_scalars g ids
  ok (scalar ∷ rest)

-- The search for a participant's commitment.
unfoldable pub find_commitment :
    (g : Group) → CommitmentList g → Identifier → Option (SigningCommitments g)
find_commitment g [] identifier = none
find_commitment g (c ∷ cs) identifier =
    if c.identifier == identifier then some c else find_commitment g cs identifier

module _ (s : Suite) where
  -- `RoundOne`, with the results of the two reads of random bytes.
  unfoldable pub round_one :
      KeyPackage s.group
      → Result Bytes
      → Result Bytes
      → Result (SigningNonces s.group × SigningCommitments s.group)
  round_one kp hiding_random binding_random = do
    hiding_bytes ← wrap (parameter_error "randomBytes" "failed to generate") hiding_random
    let hiding = s.h3 (hiding_bytes ++ s.bytes kp.secret_share)
    binding_bytes ← wrap (parameter_error "randomBytes" "failed to generate") binding_random
    let binding = s.h3 (binding_bytes ++ s.bytes kp.secret_share)
    reject_if (s.is_zero hiding)
        (parameter_error "hidingNonce" "generated zero nonce" (sentinel Sentinel.invalid_nonce))
    reject_if (s.is_zero binding)
        (parameter_error "bindingNonce" "generated zero nonce" (sentinel Sentinel.invalid_nonce))
    reject_if (s.is_identity (s.scalar_base_mult hiding)) (
        parameter_error "hidingNonceCommitment" "commitment is identity element"
          (sentinel Sentinel.identity_element))
    reject_if (s.is_identity (s.scalar_base_mult binding)) (
        parameter_error "bindingNonceCommitment" "commitment is identity element"
          (sentinel Sentinel.identity_element))
    let commitments : SigningCommitments s.group = record {
      identifier = kp.identifier;
      hiding_nonce_commitment = some (s.scalar_base_mult hiding);
      binding_nonce_commitment = some (s.scalar_base_mult binding);
    }
    ok (
      record { hiding_nonce = hiding; binding_nonce = binding; commitments = commitments },
      commitments,
    )

  -- `RoundTwo`.
  unfoldable pub round_two :
      KeyPackage s.group
      → SigningNonces s.group
      → Bytes
      → CommitmentList s.group
      → Result (SignatureShare s.group)
  unfolding participant_scalars
  round_two kp nonces msg cs = do
    validate_commitment_list s.group cs
    reject_if (ltb 0 kp.min_signers && ltb (length cs) kp.min_signers) (
        parameter_error "commitmentList" "insufficient participants for threshold signing"
          (sentinel Sentinel.insufficient_participants))
    factors ←
        wrap (parameter_error "bindingFactors" "failed to compute")
          (compute_binding_factors s kp.group_public_key cs msg)
    group_commitment ←
        wrap (parameter_error "groupCommitment" "failed to compute")
          (compute_group_commitment s.group cs factors)
    scalars ← participant_scalars s.group (get_participants s.group cs)
    my_id ←
        wrap (parameter_error "myIDScalar" "failed to create")
          (identifier_to_scalar s.group kp.identifier)
    lambda ←
        wrap (parameter_error "lambda" "failed to compute interpolating value")
          (derive_interpolating_value s.group scalars (some my_id))
    challenge ←
        wrap (parameter_error "challenge" "failed to compute")
          (compute_challenge s (some group_commitment) kp.group_public_key msg)
    factor ←
        wrap (participant_error kp.identifier "binding factor not found")
          (get_binding_factor s factors kp.identifier)
    ok (record {
      identifier = kp.identifier;
      signature_share =
          s.add (s.add nonces.hiding_nonce (s.mul nonces.binding_nonce factor))
            (s.mul (s.mul lambda kp.secret_share) challenge);
    })

  -- `VerifySignatureShare`. The verification shares of the key package are taken for commitments to
  -- the coefficients of the sharing polynomial.
  unfoldable pub verify_signature_share :
      KeyPackage s.group
      → SignatureShare s.group
      → Bytes
      → CommitmentList s.group
      → Result (Unit {0})
  unfolding participant_scalars find_commitment
  verify_signature_share kp share msg cs = do
    validate_commitment_list s.group cs
    factors ←
        wrap (parameter_error "bindingFactors" "failed to compute")
          (compute_binding_factors s kp.group_public_key cs msg)
    group_commitment ←
        wrap (parameter_error "groupCommitment" "failed to compute")
          (compute_group_commitment s.group cs factors)
    scalars ← participant_scalars s.group (get_participants s.group cs)
    share_id ←
        wrap (parameter_error "shareIDScalar" "failed to create")
          (identifier_to_scalar s.group share.identifier)
    lambda ←
        wrap (parameter_error "lambda" "failed to compute interpolating value")
          (derive_interpolating_value s.group scalars (some share_id))
    challenge ←
        wrap (parameter_error "challenge" "failed to compute")
          (compute_challenge s (some group_commitment) kp.group_public_key msg)
    factor ←
        wrap (participant_error share.identifier "binding factor not found")
          (get_binding_factor s factors share.identifier)
    commitment ← require (find_commitment s.group cs share.identifier) (
        participant_error share.identifier "commitment not found in list"
          (sentinel Sentinel.invalid_commitment))
    poly_id ←
        wrap (parameter_error "polyIDScalar" "failed to create")
          (identifier_to_scalar s.group share.identifier)
    id_power ← must (identifier_to_scalar s.group 1)
    let verification_key =
        share_loop s.group poly_id s.identity id_power
          (map (λ v. v.verification_key) kp.verification_shares)
    hiding ← deref commitment.hiding_nonce_commitment
    binding ← deref commitment.binding_nonce_commitment
    accept_if
        (s.same (s.scalar_base_mult share.signature_share) (
          s.plus (s.plus hiding (s.scalar_mult binding factor))
            (s.scalar_mult (s.scalar_mult verification_key challenge) lambda)))
        (verification_error "signature share" "verification equation failed"
          (sentinel Sentinel.invalid_signature_share))
