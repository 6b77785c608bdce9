-- ===== src/Signing/Rerandomized.antt =====
-- Rerandomized signing (pkg/frost/signing/rerandomized.go). A map is the list of its values, in the
-- order in which the loop over it meets them; the parameters that the methods hold are present. The
-- zeroing of buffers has no effect on values.
pub mod Session
pub mod Randomizer
use go_frost.Common.{ℕ, Option, none, some, List, [], ◌∷◌, ◌++◌, map}
use go_frost.Bytes.{Bytes}
use go_frost.Errors.{
  Result, ok, parameter_error, sentinel, Sentinel, ◌>>=◌, ◌>>◌, require, reject_if, deref,
}
use go_frost.Group.{Group, Suite}
use go_frost.Types.{
  SigningCommitments, SigningNonces, SignatureShare, Signature, VerificationShare, KeyPackage,
  CommitmentList,
}
use go_frost.Types.Identifiers.{serialize}
use go_frost.Signing.Participant.{round_one, round_two}
use go_frost.Signing.Aggregator.{aggregate_with_verification, verify}
use go_frost.Signing.Api.{sign, aggregate_maps, verify_signature}

pub record RandomizedParams (g : Group) : Type 0 where
  pub randomizer : g.Scalar
  pub randomizer_element : g.Element
  pub randomized_verifying_key : Option g.Element

pub record RerandomizedParticipant (g : Group) : Type 0 where
  pub key_package : KeyPackage g
  pub params : RandomizedParams g

pub record RerandomizedAggregator (g : Group) : Type 0 where
  pub min_signers : ℕ
  pub params : RandomizedParams g

module _ (g : Group) where
  -- The loop of `ComputeRandomizer` over the commitments.
  unfoldable pub randomizer_loop : Bytes → CommitmentList g → Result Bytes
  randomizer_loop input [] = ok input
  randomizer_loop input (c ∷ cs) = do
    hiding ← deref c.hiding_nonce_commitment
    binding ← deref c.binding_nonce_commitment
    randomizer_loop
        (((input ++ serialize c.identifier) ++ g.element_bytes hiding) ++ g.element_bytes binding)
        cs

  -- `vs` with `vs.VerificationKey.Add(params.RandomizerElement)`.
  unfoldable pub randomize_verification_share :
      RandomizedParams g → VerificationShare g → VerificationShare g
  randomize_verification_share params vs = record vs {
    verification_key = g.plus vs.verification_key params.randomizer_element;
  }

  -- `RandomizeKeyPackage`.
  unfoldable pub randomize_key_package : KeyPackage g → RandomizedParams g → KeyPackage g
  randomize_key_package kp params = record {
    identifier = kp.identifier;
    secret_share = g.add kp.secret_share params.randomizer;
    group_public_key = params.randomized_verifying_key;
    verification_shares = map (randomize_verification_share params) kp.verification_shares;
    min_signers = kp.min_signers;
    max_signers = kp.max_signers;
  }

module _ (s : Suite) where
  -- `NewRandomizedParams`.
  unfoldable pub new_randomized_params :
      Option s.Scalar → Option s.Element → Result (RandomizedParams s.group)
  new_randomized_params randomizer group_public_key = do
    key ←
        require group_public_key
          (parameter_error "groupPublicKey" "cannot be nil" (sentinel Sentinel.invalid_parameters))
    r ←
        require randomizer
          (parameter_error "randomizer" "cannot be nil" (sentinel Sentinel.invalid_parameters))
    let element = s.scalar_base_mult r
    let randomized = s.plus key element
    reject_if (s.is_identity randomized) (
        parameter_error "randomizedPublicKey" "randomized public key is identity element"
          (sentinel Sentinel.identity_element))
    ok (record {
      randomizer = r;
      randomizer_element = element;
      randomized_verifying_key = some randomized;
    })

  -- `ComputeRandomizer`.
  unfoldable pub compute_randomizer :
      Bytes
      → CommitmentList s.group
      → s.Scalar
      → Option s.Element
      → Result (RandomizedParams s.group)
  unfolding randomizer_loop
  compute_randomizer msg cs randomness group_public_key = do
    key ←
        require group_public_key
          (parameter_error "groupPublicKey" "cannot be nil" (sentinel Sentinel.invalid_parameters))
    input ← randomizer_loop s.group (s.bytes randomness) cs
    new_randomized_params (some (s.h3 (input ++ msg))) (some key)

  -- `RerandomizedSign`.
  unfoldable pub rerandomized_sign :
      Bytes
      → Option (KeyPackage s.group)
      → Option (SigningNonces s.group)
      → List (Option (SigningCommitments s.group))
      → RandomizedParams s.group
      → Result (SignatureShare s.group)
  rerandomized_sign msg key_package nonce_package commitments params = do
    kp ← deref key_package
    sign s msg (some (randomize_key_package s.group kp params)) nonce_package commitments

  -- `RerandomizedAggregate`.
  unfoldable pub rerandomized_aggregate :
      Bytes
      → List (Option (SigningCommitments s.group))
      → List (Option (SignatureShare s.group))
      → List (VerificationShare s.group)
      → RandomizedParams s.group
      → Result (Signature s.group)
  rerandomized_aggregate msg commitments signature_shares verification_shares params =
      aggregate_maps s msg commitments signature_shares
        (map (randomize_verification_share s.group params) verification_shares)
        params.randomized_verifying_key

  -- `RerandomizedVerify`.
  unfoldable pub rerandomized_verify :
      Bytes → Signature s.group → RandomizedParams s.group → Result (Unit {0})
  rerandomized_verify msg signature params =
      verify_signature s msg signature params.randomized_verifying_key

  -- `RerandomizedParticipant.RoundOne`, with the results of the two reads of random bytes.
  unfoldable pub rerandomized_round_one :
      RerandomizedParticipant s.group
      → Result Bytes
      → Result Bytes
      → Result (SigningNonces s.group × SigningCommitments s.group)
  rerandomized_round_one rp hiding_random binding_random =
      round_one s rp.key_package hiding_random binding_random

  -- `RerandomizedParticipant.RoundTwo`.
  unfoldable pub rerandomized_round_two :
      RerandomizedParticipant s.group
      → SigningNonces s.group
      → Bytes
      → CommitmentList s.group
      → Result (SignatureShare s.group)
  rerandomized_round_two rp nonces msg cs =
      round_two s (randomize_key_package s.group rp.key_package rp.params) nonces msg cs

  -- `RerandomizedAggregator.Aggregate`.
  unfoldable pub aggregate_randomized :
      RerandomizedAggregator s.group
      → CommitmentList s.group
      → Bytes
      → List (SignatureShare s.group)
      → List (VerificationShare s.group)
      → Result (Signature s.group)
  aggregate_randomized ra cs msg signature_shares verification_shares =
      aggregate_with_verification s ra.min_signers ra.params.randomized_verifying_key cs msg
        signature_shares (map (randomize_verification_share s.group ra.params) verification_shares)

  -- `RerandomizedAggregator.Verify`.
  unfoldable pub verify_randomized :
      RerandomizedAggregator s.group → Bytes → Signature s.group → Result (Unit {0})
  verify_randomized ra msg signature = verify s msg signature ra.params.randomized_verifying_key

  -- `GetRandomizedPublicKey`.
  unfoldable pub get_randomized_public_key : RerandomizedAggregator s.group → Option s.Element
  get_randomized_public_key ra = ra.params.randomized_verifying_key
