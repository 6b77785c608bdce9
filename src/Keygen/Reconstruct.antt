-- ===== src/Keygen/Reconstruct.antt =====
-- `RecoverSecret` (pkg/frost/keygen/dealer.go), `Reconstruct` and `VerifyReconstruction`
-- (pkg/frost/keygen/reconstruct.go). A map is a list of its entries in the order in which the
-- loops over it meet them, which Go leaves open.
pub mod Secret
use go_frost.Common.{ℕ, Bool, true, false, Option, none, some, List, [], ◌∷◌, map}
use go_frost.Encoding.{identifier_to_scalar}
use go_frost.Errors.{
  Result, ok, fail, Error, parameter_error, participant_error, verification_error, sentinel,
  Sentinel, ◌>>=◌, ◌>>◌, wrap, reject_if, accept_if, require,
}
use go_frost.Group.{Group}
use go_frost.Polynomial.{derive_interpolating_value}
use go_frost.Types.{Identifier}
use go_frost.Keygen.Dealer.{contains}

module _ (g : Group) where
  -- An identifier, its scalar and its share.
  pub record Point : Type 0 where
    pub identifier : Identifier
    pub x : g.Scalar
    pub share : g.Scalar

  -- The loop that fills `xCoords`.
  to_points : List (Identifier × g.Scalar) → Result (List Point)
  to_points [] = ok []
  to_points ((id, share) ∷ rest) = do
    x ←
        wrap (parameter_error "identifier" "failed to convert to scalar")
          (identifier_to_scalar g id)
    points ← to_points rest
    ok (record { identifier = id; x = x; share = share } ∷ points)

  -- The loop that adds `share * lambda`; the two callers report a failure differently.
  weighted_sum :
      (Identifier → Error → Error) → List g.Scalar → g.Scalar → List Point → Result g.Scalar
  weighted_sum report xs secret [] = ok secret
  weighted_sum report xs secret (p ∷ ps) = do
    lambda ← wrap (report p.identifier) (derive_interpolating_value g xs (some p.x))
    weighted_sum report xs (g.add secret (g.mul p.share lambda)) ps

  interpolate_all : (Identifier → Error → Error) → List (Identifier × g.Scalar) → Result g.Scalar
  unfolding to_points weighted_sum
  interpolate_all report shares = do
    points ← to_points shares
    weighted_sum report (map (λ p. p.x) points) g.new_scalar points

  -- `RecoverSecret`.
  unfoldable pub recover_secret : Option (List (Identifier × g.Scalar)) → Result g.Scalar
  unfolding interpolate_all
  recover_secret none =
      fail (parameter_error "shares" "cannot be nil" (sentinel Sentinel.invalid_parameters))
  recover_secret (some []) =
      fail
        (parameter_error "shares" "cannot be empty" (sentinel Sentinel.insufficient_participants))
  recover_secret (some (s ∷ ss)) = interpolate_all (λ _ e. e) (s ∷ ss)

  -- The loop over `shares` with the map `seen`: the entries without the nil shares.
  check_shares :
      List Identifier → List (Identifier × Option g.Scalar) → Result (List (Identifier × g.Scalar))
  check_shares seen [] = ok []
  check_shares seen ((id, s) ∷ rest) = do
    share ←
        require s
          (parameter_error "shares" "contains nil share" (sentinel Sentinel.invalid_parameters))
    reject_if (contains id seen) (
        parameter_error "shares" "contains duplicate identifiers"
          (sentinel Sentinel.duplicate_participant))
    shares ← check_shares (id ∷ seen) rest
    ok ((id, share) ∷ shares)

  -- `Reconstruct`.
  unfoldable pub reconstruct : List (Identifier × Option g.Scalar) → Result g.Scalar
  unfolding check_shares interpolate_all
  reconstruct [] =
      fail (parameter_error "shares" "cannot be empty" (sentinel Sentinel.invalid_parameters))
  reconstruct (s ∷ ss) = do
    shares ← check_shares [] (s ∷ ss)
    interpolate_all (λ id. participant_error id "failed to compute Lagrange coefficient") shares

  -- `VerifyReconstruction`.
  unfoldable pub verify_reconstruction : Option g.Scalar → Option g.Element → Result (Unit {0})
  verify_reconstruction s k = do
    secret ←
        require s (parameter_error "secret" "cannot be nil" (sentinel Sentinel.invalid_parameters))
    group_public_key ←
        require k
          (parameter_error "groupPublicKey" "cannot be nil" (sentinel Sentinel.invalid_parameters))
    accept_if (g.same (g.scalar_base_mult secret) group_public_key) (
        verification_error "secret" "reconstructed secret doesn't match group public key"
          (sentinel Sentinel.invalid_key_share))
