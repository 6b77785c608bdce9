-- ===== src/Signing/Challenge.antt =====
-- pkg/frost/helpers/challenge.go and pkg/frost/helpers/nonce.go.
use go_frost.Common.{Option, ◌++◌}
use go_frost.Bytes.{Bytes}
use go_frost.Errors.{
  Result, ok, parameter_error, verification_error, sentinel, Sentinel, ◌>>=◌, ◌>>◌, wrap, require,
  reject_if,
}
use go_frost.Group.{Suite}

module _ (s : Suite) where
  -- `Compute`.
  unfoldable pub compute_challenge : Option s.Element → Option s.Element → Bytes → Result s.Scalar
  compute_challenge group_commitment group_public_key msg = do
    r ←
        require group_commitment
          (parameter_error "groupCommitment" "cannot be nil" (sentinel Sentinel.invalid_parameters))
    key ←
        require group_public_key
          (parameter_error "groupPublicKey" "cannot be nil" (sentinel Sentinel.invalid_parameters))
    let challenge = s.h2 ((s.element_bytes r ++ s.element_bytes key) ++ msg)
    reject_if (s.is_zero challenge) (
        verification_error "challenge" "computed challenge is zero - possible hash collision"
          (sentinel Sentinel.invalid_challenge))
    ok challenge

  -- `Generate`, with the result of the read of random bytes.
  unfoldable pub generate_nonce : Result Bytes → Option s.Scalar → Result s.Scalar
  generate_nonce random secret = do
    share ←
        require secret
          (parameter_error "secret" "cannot be nil" (sentinel Sentinel.invalid_parameters))
    random_bytes ← wrap (parameter_error "randomness" "failed to generate random bytes") random
    let nonce = s.h3 (random_bytes ++ s.bytes share)
    reject_if (s.is_zero nonce)
        (parameter_error "nonce" "generated zero nonce" (sentinel Sentinel.invalid_nonce))
    ok nonce
