-- ===== src/Signing/Strategy.antt =====
-- The strategies against invalid signature shares (pkg/frost/signing/strategy.go).
pub mod Lookup
pub mod Cheaters
use go_frost.Common.{
  ℕ, Bool, true, false, ltb, Option, none, some, List, [], ◌∷◌, length, if◌then◌else◌, look_up,
  insert,
}
use go_frost.Bytes.{Bytes}
use go_frost.Encoding.{identifier_to_scalar, get_participants, validate_commitment_list}
use go_frost.Errors.{
  Result, panic, ok, fail, parameter_error, signature_share_error, sentinel, Sentinel, ◌>>=◌, ◌>>◌,
  wrap, require, reject_if, deref,
}
use go_frost.Group.{Suite}
use go_frost.Polynomial.{derive_interpolating_value}
use go_frost.Types.{
  Identifier, SigningCommitments, SignatureShare, Signature, VerificationShare, CommitmentList,
  BindingFactorList,
}
use go_frost.Signing.Binding.{is_empty}
use go_frost.Signing.Challenge.{compute_challenge}
use go_frost.Signing.Participant.{participant_scalars}
use go_frost.Signing.Aggregator.{sum_shares, commit_group, aggregate, aggregate_with_verification}

-- `unknown_strategy` is every other value of the integer type.
pub data CheaterDetectionStrategy : Type 0 where
  disabled first_cheater all_cheaters unknown_strategy : CheaterDetectionStrategy

-- `for _, x := range list { m[key] = value }`.
unfoldable pub index_by :
    {A B : Type 0}
    → (A → Identifier)
    → (A → B)
    → List A
    → List (Identifier × B)
    → List (Identifier × B)
index_by key value [] m = m
index_by key value (x ∷ xs) m = index_by key value xs (insert (key x) (value x) m)

-- `v, ok := m[key]; if !ok { culprits = append(culprits, ...); continue }`.
abbrev pub if_present : {A : Type 0} → Option A → (A → Result Bool) → Result Bool
if_present none rest = ok false
if_present (some a) rest = rest a

-- `if err != nil { culprits = append(culprits, ...); continue }`.
abbrev pub if_computed : {A : Type 0} → Result A → (A → Result Bool) → Result Bool
if_computed panic rest = panic
if_computed (fail e) rest = ok false
if_computed (ok a) rest = rest a

module _ (s : Suite) where
  -- The body of the loop over the shares, with the lookup maps: whether the share passes.
  unfoldable pub share_passes :
      List (Identifier × s.Element)
      → List (Identifier × s.Scalar)
      → List (Identifier × SigningCommitments s.group)
      → List s.Scalar
      → s.Scalar
      → SignatureShare s.group
      → Result Bool
  share_passes keys factors commitments scalars challenge share =
      if_present (look_up share.identifier keys) (λ key.
        if_present (look_up share.identifier factors) (λ factor.
          if_present (look_up share.identifier commitments) (λ commitment.
            if_computed (identifier_to_scalar s.group share.identifier) (λ share_id.
              if_computed (derive_interpolating_value s.group scalars (some share_id)) (λ lambda. do
                hiding ← deref commitment.hiding_nonce_commitment
                binding ← deref commitment.binding_nonce_commitment
                ok (
                    s.same (s.scalar_base_mult share.signature_share) (
                      s.plus (s.plus hiding (s.scalar_mult binding factor))
                        (s.scalar_mult (s.scalar_mult key challenge) lambda))))))))

  -- The loop: the identifiers of the shares that do not pass.
  unfoldable pub collect_culprits :
      (SignatureShare s.group → Result Bool)
      → List (SignatureShare s.group)
      → Result (List Identifier)
  collect_culprits passes [] = ok []
  collect_culprits passes (share ∷ shares) = do
    right ← passes share
    rest ← collect_culprits passes shares
    ok (if right then rest else share.identifier ∷ rest)

  -- `if len(culprits) > 0`, and the aggregation.
  unfoldable pub aggregate_unless :
      List Identifier → s.Element → List (SignatureShare s.group) → Result (Signature s.group)
  unfolding sum_shares
  aggregate_unless [] group_commitment shares =
      ok (record { r = some group_commitment; z = some (sum_shares s.group s.new_scalar shares) })
  aggregate_unless (id ∷ ids) group_commitment shares = fail (
      signature_share_error (id ∷ ids) "signature share verification failed"
        (sentinel Sentinel.invalid_signature_share))

  -- `aggregateWithAllCheaterDetection`.
  unfoldable pub aggregate_with_all_cheater_detection :
      Option s.Element
      → CommitmentList s.group
      → Bytes
      → List (SignatureShare s.group)
      → List (VerificationShare s.group)
      → ℕ
      → Result (Signature s.group)
  unfolding collect_culprits share_passes aggregate_unless commit_group
  aggregate_with_all_cheater_detection group_public_key cs msg shares verification_shares
        min_signers =
      do
        validate_commitment_list s.group cs
        key ← require group_public_key (
            parameter_error "groupPublicKey" "cannot be nil" (sentinel Sentinel.invalid_parameters))
        reject_if (ltb (length shares) min_signers) (sentinel Sentinel.insufficient_participants)
        reject_if (is_empty verification_shares) (
            parameter_error "verificationShares" "cannot be empty for cheater detection"
              (sentinel Sentinel.invalid_parameters))
        (factors, group_commitment) ← commit_group s (some key) cs msg
        challenge ←
            wrap (parameter_error "challenge" "failed to compute")
              (compute_challenge s (some group_commitment) (some key) msg)
        scalars ← participant_scalars s.group (get_participants s.group cs)
        let verification_key_map =
            index_by (λ v. v.identifier) (λ v. v.verification_key) verification_shares []
        let commitment_map = index_by (λ c. c.identifier) (λ c. c) cs []
        let binding_factor_map = index_by (λ f. f.identifier) (λ f. f.binding_factor) factors []
        culprits ←
            collect_culprits
              (share_passes verification_key_map binding_factor_map commitment_map scalars
                challenge)
              shares
        aggregate_unless culprits group_commitment shares

  -- `AggregateWithStrategy`.
  unfoldable pub aggregate_with_strategy :
      Option s.Element
      → CommitmentList s.group
      → Bytes
      → List (SignatureShare s.group)
      → List (VerificationShare s.group)
      → CheaterDetectionStrategy
      → ℕ
      → Result (Signature s.group)
  unfolding aggregate_with_all_cheater_detection
  aggregate_with_strategy key cs msg shares keys disabled min_signers =
      aggregate s min_signers key cs msg shares
  aggregate_with_strategy key cs msg shares keys first_cheater min_signers =
      aggregate_with_verification s min_signers key cs msg shares keys
  aggregate_with_strategy key cs msg shares keys all_cheaters min_signers =
      aggregate_with_all_cheater_detection key cs msg shares keys min_signers
  aggregate_with_strategy key cs msg shares keys unknown_strategy min_signers = fail (
      parameter_error "strategy" "unknown cheater detection strategy"
        (sentinel Sentinel.invalid_parameters))
