-- ===== src/Service/Frost.antt =====
-- The service over the protocol (pkg/frost/service/frost.go). `rng` has the results of the draws of
-- scalars, `random` those of the reads of random bytes. The commitments that are sorted have distinct
-- identifiers, so that the sort of the standard library gives what an insertion sort gives.
pub mod Delegates
pub mod Signed
use go_frost.Common.{
  ℕ, ◌+◌, ◌*◌, ◌%◌, ◌^◌, Bool, true, false, ltb, ◌==◌, not, if◌then◌else◌, Option, none, some, List,
  [], ◌∷◌, ◌++◌, map, length, look_up, insert,
}
use go_frost.Bytes.{Bytes}
use go_frost.Errors.{
  Result, panic, ok, fail, parameter_error, participant_error, sentinel, Sentinel, ◌>>=◌, ◌>>◌,
  wrap, require, reject_if, accept_if, deref,
}
use go_frost.Group.{Group, Suite}
use go_frost.Keygen.Dealer.{check_ids, generate_shares, contains}
use go_frost.Keygen.Vss.{verify_share}
use go_frost.Signing.Aggregator.{aggregate, verify}
use go_frost.Signing.Binding.{is_empty}
use go_frost.Signing.Package.{insertion_sort}
use go_frost.Signing.Participant.{round_one, round_two}
use go_frost.Types.{
  Identifier, SigningCommitments, SigningNonces, SignatureShare, Signature, KeyPackage,
  CommitmentList, VerificationShare,
}

-- A configuration; of its group only the comparison with nil is used.
pub record Configuration : Type 0 where
  pub min_signers : ℕ
  pub max_signers : ℕ
  pub has_group : Bool

-- `validateConfiguration`.
unfoldable pub validate_configuration : Configuration → Result (Unit {0})
validate_configuration config = do
  reject_if (ltb config.min_signers 2)
      (parameter_error "minSigners" "must be at least 2" (sentinel Sentinel.invalid_threshold))
  reject_if (ltb config.max_signers config.min_signers) (
      parameter_error "minSigners" "cannot exceed maxSigners" (sentinel Sentinel.invalid_threshold))
  accept_if config.has_group
      (parameter_error "group" "cannot be nil" (sentinel Sentinel.invalid_configuration))

-- `validateParticipantIDs`, with the loop that the dealer has too.
unfoldable pub validate_participant_ids : Option (List Identifier) → ℕ → Result (Unit {0})
validate_participant_ids participant_ids max_signers = do
  ids ←
      require participant_ids
        (parameter_error "participantIDs" "cannot be nil" (sentinel Sentinel.invalid_parameters))
  reject_if (not (length ids == max_signers)) (
      parameter_error "participantIDs" "length must equal maxSigners"
        (sentinel Sentinel.invalid_parameters))
  check_ids [] ids

module _ (g : Group) where
  -- The loop of `validateKeyPackages` over the packages after the first, with the identifiers of
  -- the packages before.
  unfoldable pub check_packages :
      Option g.Element → List Identifier → List (KeyPackage g) → Result (Unit {0})
  check_packages first_key before [] = ok tt
  check_packages first_key before (pkg ∷ pkgs) = do
    key ← deref pkg.group_public_key
    first ← deref first_key
    accept_if (g.same key first) (
        participant_error pkg.identifier "group public key mismatch"
          (sentinel Sentinel.invalid_key_share))
    reject_if (contains pkg.identifier before) (
        participant_error pkg.identifier "duplicate participant"
          (sentinel Sentinel.duplicate_participant))
    check_packages first_key (before ++ (pkg.identifier ∷ [])) pkgs

  -- `validateKeyPackages`.
  unfoldable pub validate_key_packages : Option (List (KeyPackage g)) → Result (Unit {0})
  unfolding check_packages
  validate_key_packages none =
      fail (parameter_error "keyPackages" "cannot be nil" (sentinel Sentinel.invalid_parameters))
  validate_key_packages (some []) = fail (
      parameter_error "keyPackages" "cannot be empty" (sentinel Sentinel.insufficient_participants))
  validate_key_packages (some (pkg ∷ pkgs)) =
      check_packages pkg.group_public_key (pkg.identifier ∷ []) pkgs

  -- The threshold that `Sign` takes from the first package.
  unfoldable pub threshold_of : ℕ → List (VerificationShare g) → ℕ
  threshold_of packages [] = packages % 2 ^ 32
  threshold_of packages (v ∷ vs) = length (v ∷ vs) % 2 ^ 32

  -- `GenerateKeys`.
  unfoldable pub generate_keys :
      (ℕ → Result g.Scalar)
      → Configuration
      → Option (List Identifier)
      → Result (List (KeyPackage g) × g.Element)
  unfolding validate_configuration validate_participant_ids
  generate_keys rng config participant_ids = do
    validate_configuration config
    validate_participant_ids participant_ids config.max_signers
    ids ← deref participant_ids
    generate_shares g rng none config.min_signers config.max_signers ids

  -- `VerifyKeyShare`, of a package with a secret share.
  unfoldable pub verify_key_share : KeyPackage g → Result (Unit {0})
  verify_key_share kp = do
    reject_if (is_empty kp.verification_shares) (
        parameter_error "keyPackage.VerificationShares" "cannot be empty"
          (sentinel Sentinel.invalid_key_share))
    verify_share g kp.identifier kp.secret_share kp.verification_shares

module _ (s : Suite) where
  -- The loop of round one, from the `i`-th participant: the map of nonces and the commitments.
  unfoldable pub service_round_one :
      (ℕ → Result Bytes)
      → ℕ
      → List (Identifier × SigningNonces s.group)
      → List (KeyPackage s.group)
      → Result (List (Identifier × SigningNonces s.group) × CommitmentList s.group)
  service_round_one random i nonces_map [] = ok (nonces_map, [])
  service_round_one random i nonces_map (pkg ∷ pkgs) = do
    (nonces, commitment) ←
        wrap (participant_error pkg.identifier "round one failed")
          (round_one s pkg (random (2 * i)) (random (2 * i + 1)))
    (all_nonces, commitments) ←
        service_round_one random (i + 1) (insert pkg.identifier nonces nonces_map) pkgs
    ok (all_nonces, commitment ∷ commitments)

  -- The loop of round two. The nonces that are missing are nil, and panic where they are used.
  unfoldable pub service_round_two :
      List (Identifier × SigningNonces s.group)
      → Bytes
      → CommitmentList s.group
      → List (KeyPackage s.group)
      → Result (List (SignatureShare s.group))
  service_round_two nonces_map msg commitments [] = ok []
  service_round_two nonces_map msg commitments (pkg ∷ pkgs) = do
    nonces ← deref (look_up pkg.identifier nonces_map)
    share ←
        wrap (participant_error pkg.identifier "round two failed")
          (round_two s pkg nonces msg commitments)
    shares ← service_round_two nonces_map msg commitments pkgs
    ok (share ∷ shares)

  -- `Sign` of packages that have passed the validation, which are not empty.
  unfoldable pub sign_packages :
      (ℕ → Result Bytes) → List (KeyPackage s.group) → Bytes → Result (Signature s.group)
  unfolding service_round_one service_round_two threshold_of
  sign_packages random [] msg = panic
  sign_packages random (pkg ∷ pkgs) msg = do
    let packages = pkg ∷ pkgs
    reject_if (ltb (length packages) 2) (
        parameter_error "keyPackages" "must have at least 2 participants"
          (sentinel Sentinel.insufficient_participants))
    (nonces_map, commitments) ← service_round_one random 0 [] packages
    let sorted = insertion_sort s.group [] commitments
    shares ← service_round_two nonces_map msg sorted packages
    aggregate s (threshold_of s.group (length packages) pkg.verification_shares)
        pkg.group_public_key sorted msg shares

  -- `Sign`.
  unfoldable pub service_sign :
      (ℕ → Result Bytes) → Option (List (KeyPackage s.group)) → Bytes → Result (Signature s.group)
  unfolding sign_packages validate_key_packages
  service_sign random key_packages msg = do
    validate_key_packages s.group key_packages
    packages ← deref key_packages
    sign_packages random packages msg

  -- `Verify`.
  unfoldable pub service_verify : Bytes → Signature s.group → Option s.Element → Result (Unit {0})
  service_verify msg signature public_key = do
    r ←
        require signature.r
          (parameter_error "signature.R" "cannot be nil" (sentinel Sentinel.invalid_signature))
    z ←
        require signature.z
          (parameter_error "signature.Z" "cannot be nil" (sentinel Sentinel.invalid_signature))
    key ←
        require public_key
          (parameter_error "publicKey" "cannot be nil" (sentinel Sentinel.invalid_parameters))
    verify s msg signature public_key
