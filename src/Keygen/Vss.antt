-- ===== src/Keygen/Vss.antt =====
-- pkg/frost/keygen/vss.go. Verification shares double as commitments to coefficients here.
pub mod Accepts
use go_frost.Common.{ℕ, zero, suc, ◌+◌, ◌==◌, Bool, true, false, List, [], ◌∷◌, map, if◌then◌else◌}
use go_frost.Commitments.{share_loop}
use go_frost.Encoding.{identifier_to_scalar}
use go_frost.Errors.{
  Result, ok, fail, parameter_error, verification_error, sentinel, Sentinel, ◌>>=◌, ◌>>◌, wrap,
  reject_if, must, accept_if,
}
use go_frost.Group.{Group}
use go_frost.Types.{Identifier, Polynomial, VerificationShare}

module _ (g : Group) where
  -- `for i, coefficient := range`.
  unfoldable pub commitments_from : ℕ → List g.Scalar → List (VerificationShare g)
  commitments_from i [] = []
  commitments_from i (c ∷ cs) =
      record { identifier = i; verification_key = g.scalar_base_mult c }
      ∷ commitments_from (i + 1) cs

  -- `CreateCommitments`.
  unfoldable pub create_commitments : Polynomial g → Result (List (VerificationShare g))
  unfolding commitments_from
  create_commitments [] =
      fail (parameter_error "polynomial" "cannot be empty" (sentinel Sentinel.invalid_polynomial))
  create_commitments (c ∷ cs) = ok (commitments_from 0 (c ∷ cs))

  abbrev pub keys : List (VerificationShare g) → List g.Element
  keys = map (λ v. v.verification_key)

  -- `VerifyShare`. The second test for nil commitments is never reached: a nil slice is empty.
  unfoldable pub verify_share :
      Identifier → g.Scalar → List (VerificationShare g) → Result (Unit {0})
  verify_share identifier share [] = do
    reject_if (identifier == 0)
        (parameter_error "identifier" "cannot be zero" (sentinel Sentinel.invalid_participant))
    fail (parameter_error "commitments" "cannot be empty" (sentinel Sentinel.invalid_parameters))
  verify_share identifier share (c ∷ cs) = do
    reject_if (identifier == 0)
        (parameter_error "identifier" "cannot be zero" (sentinel Sentinel.invalid_participant))
    id_scalar ←
        wrap (parameter_error "identifier" "failed to convert to scalar")
          (identifier_to_scalar g identifier)
    id_power ← must (identifier_to_scalar g 1)
    accept_if
        (g.same (g.scalar_base_mult share)
          (share_loop g id_scalar g.identity id_power (keys (c ∷ cs))))
        (verification_error "share" "share verification failed"
          (sentinel Sentinel.invalid_key_share))

  sum_loop : g.Scalar → List g.Scalar → g.Scalar
  sum_loop result [] = result
  sum_loop result (s ∷ ss) = sum_loop (g.add result s) ss

  -- `CombineShares`; a nil slice and an empty one are both refused, with their own messages.
  unfoldable pub combine_shares : Bool → List g.Scalar → Result g.Scalar
  unfolding sum_loop
  combine_shares true _ =
      fail (parameter_error "shares" "cannot be nil" (sentinel Sentinel.invalid_parameters))
  combine_shares false [] =
      fail (parameter_error "shares" "cannot be empty" (sentinel Sentinel.invalid_parameters))
  combine_shares false (s ∷ ss) = ok (sum_loop g.new_scalar (s ∷ ss))
