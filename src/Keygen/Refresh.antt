-- ===== src/Keygen/Refresh.antt =====
-- pkg/frost/keygen/refresh/refresh.go: shares of zero that are added to the shares of a key.
pub mod Secret
use go_frost.Common.{
  ℕ, ◌-◌, ltb, ◌==◌, if◌then◌else◌, not, Option, none, some, List, [], ◌∷◌, map, look_up, insert,
}
use go_frost.Commitments.{evaluate_commitment_polynomial}
use go_frost.Encoding.{identifier_to_scalar}
use go_frost.Errors.{
  Result, ok, fail, parameter_error, participant_error, verification_error, sentinel, Sentinel,
  ◌>>=◌, ◌>>◌, wrap, reject_if, accept_if, require,
}
use go_frost.Group.{Group, Suite}
use go_frost.Polynomial.{evaluate, random_scalars}
use go_frost.Types.{Identifier, Polynomial, KeyPackage, VerificationShare}
use go_frost.Keygen.Dkg.{PublicKeyPackage}

pub record RefreshShare (g : Group) : Type 0 where
  pub identifier : Identifier
  pub share : Option g.Scalar
  pub commitment : List g.Element

module _ (g : Group) where
  -- The loop over the identifiers. `rest` are the coefficients after the zero constant term, and the
  -- first commitment, to zero, is left out of the shares.
  unfoldable pub refresh_loop :
      List g.Scalar
      → List (Identifier × g.Element)
      → List (Identifier × g.Element)
      → List Identifier
      → Result (List (RefreshShare g) × List (Identifier × g.Element))
  refresh_loop rest current new_shares [] = ok ([], new_shares)
  refresh_loop rest current new_shares (id ∷ ids) = do
    x ← wrap (participant_error id "failed to convert ID to scalar") (identifier_to_scalar g id)
    old ← require (look_up id current) (
        participant_error id "not found in current public key package"
          (sentinel Sentinel.invalid_participant))
    refreshed ← evaluate_commitment_polynomial g (map g.scalar_base_mult (g.new_scalar ∷ rest)) x
    (shares, all) ← refresh_loop rest current (insert id (g.plus old refreshed) new_shares) ids
    ok (
      record {
        identifier = id;
        share = some (evaluate g (g.new_scalar ∷ rest) x);
        commitment = map g.scalar_base_mult rest;
      }
          ∷ shares,
      all,
    )

  -- `ComputeRefreshingShares`.
  unfoldable pub compute_refreshing_shares :
      (ℕ → Result g.Scalar)
      → Option (PublicKeyPackage g)
      → ℕ
      → ℕ
      → List Identifier
      → Result (List (RefreshShare g) × PublicKeyPackage g)
  compute_refreshing_shares rng none max_signers min_signers ids = fail (
      parameter_error "currentPublicKeyPackage" "cannot be nil"
        (sentinel Sentinel.invalid_parameters))
  compute_refreshing_shares rng (some current) max_signers min_signers [] =
      fail (parameter_error "identifiers" "cannot be empty" (sentinel Sentinel.invalid_parameters))
  compute_refreshing_shares rng (some current) max_signers min_signers (id ∷ ids) = do
    reject_if (ltb min_signers 2)
        (parameter_error "minSigners" "must be at least 2" (sentinel Sentinel.invalid_threshold))
    reject_if (ltb max_signers min_signers) (
        parameter_error "minSigners" "cannot exceed maxSigners"
          (sentinel Sentinel.invalid_threshold))
    rest ←
        random_scalars g (parameter_error "coefficients" "failed to generate random coefficient")
          rng 0 (min_signers - 1)
    (shares, verifying) ← refresh_loop rest current.verifying_shares [] (id ∷ ids)
    ok (shares, record { verifying_shares = verifying; verifying_key = current.verifying_key })

  -- The loop over the verification shares of the key package.
  unfoldable pub update_shares :
      Identifier → g.Element → List (VerificationShare g) → List (VerificationShare g)
  update_shares id key [] = []
  update_shares id key (v ∷ vs) =
      (if v.identifier == id
        then record { identifier = v.identifier; verification_key = key }
        else v)
      ∷ update_shares id key vs

  -- `ApplyRefreshShare`.
  unfoldable pub apply_refresh_share :
      RefreshShare g → Option (KeyPackage g) → Result (KeyPackage g)
  apply_refresh_share refresh current = do
    kp ←
        require current (
          parameter_error "currentKeyPackage" "cannot be nil"
            (sentinel Sentinel.invalid_parameters))
    share ← require refresh.share (
        parameter_error "refreshShare" "share cannot be nil" (sentinel Sentinel.invalid_parameters))
    accept_if (refresh.identifier == kp.identifier) (
        parameter_error "refreshShare" "identifier mismatch"
          (sentinel Sentinel.invalid_participant))
    x ←
        wrap (parameter_error "identifier" "failed to convert to scalar")
          (identifier_to_scalar g refresh.identifier)
    right ← evaluate_commitment_polynomial g (g.identity ∷ refresh.commitment) x
    accept_if (g.same (g.scalar_base_mult share) right) (
        verification_error "refreshShare" "invalid refresh share"
          (sentinel Sentinel.invalid_key_share))
    let new_share = g.add kp.secret_share share
    ok (record {
      identifier = kp.identifier;
      secret_share = new_share;
      group_public_key = kp.group_public_key;
      verification_shares =
          update_shares refresh.identifier (g.scalar_base_mult new_share) kp.verification_shares;
      min_signers = kp.min_signers;
      max_signers = kp.max_signers;
    })
