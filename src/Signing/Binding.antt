-- ===== src/Signing/Binding.antt =====
-- pkg/frost/helpers/binding.go.
use go_frost.Common.{Bool, true, false, ◌==◌, if◌then◌else◌, Option, List, [], ◌∷◌, ◌++◌}
use go_frost.Bytes.{Bytes, identifier_bytes}
use go_frost.Encoding.{encode}
use go_frost.Errors.{
  Result, ok, fail, parameter_error, participant_error, sentinel, Sentinel, ◌>>=◌, ◌>>◌, wrap,
  require, reject_if,
}
use go_frost.Group.{Suite}
use go_frost.Types.{Identifier, CommitmentList, BindingFactorList}

abbrev pub is_empty {ℓ} : {A : Type ℓ} → List A → Bool
is_empty [] = true
is_empty (x ∷ xs) = false

module _ (s : Suite) where
  -- One factor for each commitment: H1 of the prefix and the identifier.
  unfoldable pub binding_loop : Bytes → CommitmentList s.group → Result (BindingFactorList s.group)
  binding_loop prefix [] = ok []
  binding_loop prefix (c ∷ cs) = do
    id_bytes ← identifier_bytes s.byte_order s.scalar_length c.identifier
    rest ← binding_loop prefix cs
    ok (record { identifier = c.identifier; binding_factor = s.h1 (prefix ++ id_bytes) } ∷ rest)

  -- `Compute`.
  unfoldable pub compute_binding_factors :
      Option s.Element → CommitmentList s.group → Bytes → Result (BindingFactorList s.group)
  unfolding binding_loop
  compute_binding_factors group_public_key cs msg = do
    key ←
        require group_public_key
          (parameter_error "groupPublicKey" "cannot be nil" (sentinel Sentinel.invalid_parameters))
    reject_if (is_empty cs) (sentinel Sentinel.empty_commitment_list)
    encoded ← wrap (parameter_error "commitmentList" "failed to encode") (encode s.group cs)
    binding_loop ((s.element_bytes key ++ s.h4 msg) ++ s.h5 encoded) cs

  -- `GetBindingFactor`.
  unfoldable pub get_binding_factor : BindingFactorList s.group → Identifier → Result s.Scalar
  get_binding_factor [] identifier = fail (
      participant_error identifier "binding factor not found"
        (sentinel Sentinel.invalid_participant))
  get_binding_factor (b ∷ bs) identifier =
      if b.identifier == identifier then ok b.binding_factor else get_binding_factor bs identifier
