-- ===== src/Signing/GroupCommitment.antt =====
-- pkg/frost/helpers/commitment.go.
use go_frost.Common.{◌==◌, if◌then◌else◌, Option, none, some, [], ◌∷◌}
use go_frost.Errors.{
  Result, ok, fail, Error, parameter_error, participant_error, sentinel, Sentinel, ◌>>=◌, ◌>>◌,
  require, reject_if,
}
use go_frost.Group.{Group}
use go_frost.Types.{Identifier, CommitmentList, BindingFactorList}
use go_frost.Signing.Binding.{is_empty}

module _ (g : Group) where
  -- `commitment == nil || commitment.IsIdentity()`.
  unfoldable pub require_point : Option g.Element → Error → Result g.Element
  require_point none e = fail e
  require_point (some p) e = if g.is_identity p then fail e else ok p

  -- The loop over the binding factors.
  unfoldable pub find_factor : BindingFactorList g → Identifier → Option g.Scalar
  find_factor [] identifier = none
  find_factor (b ∷ bs) identifier =
      if b.identifier == identifier then some b.binding_factor else find_factor bs identifier

  -- The loop over the commitments.
  unfoldable pub group_loop : BindingFactorList g → g.Element → CommitmentList g → Result g.Element
  group_loop factors group_commitment [] = ok group_commitment
  group_loop factors group_commitment (c ∷ cs) = do
    hiding ← require_point c.hiding_nonce_commitment (
        participant_error c.identifier "hiding nonce commitment is identity element"
          (sentinel Sentinel.identity_element))
    binding ← require_point c.binding_nonce_commitment (
        participant_error c.identifier "binding nonce commitment is identity element"
          (sentinel Sentinel.identity_element))
    factor ← require (find_factor factors c.identifier) (
        participant_error c.identifier "binding factor not found"
          (sentinel Sentinel.invalid_binding_factor))
    group_loop factors (g.plus group_commitment (g.plus hiding (g.scalar_mult binding factor))) cs

  -- `Compute`.
  unfoldable pub compute_group_commitment :
      CommitmentList g → BindingFactorList g → Result g.Element
  unfolding require_point find_factor group_loop
  compute_group_commitment cs factors = do
    reject_if (is_empty cs) (sentinel Sentinel.empty_commitment_list)
    reject_if (is_empty factors)
        (parameter_error "bindingFactors" "cannot be empty" (sentinel Sentinel.invalid_parameters))
    group_loop factors g.identity cs
