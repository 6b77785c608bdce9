-- ===== src/Encoding.antt =====
-- pkg/frost/helpers/encoding.go.
pub mod Scalars
pub mod Order
pub mod Sorted
pub mod Total
use go_frost.Common.{ℕ, leb, ◌==◌, List, [], ◌∷◌, ◌++◌, map, if◌then◌else◌}
use go_frost.Bytes.{Bytes, identifier_bytes}
use go_frost.Errors.{Result, ok, fail, sentinel, Sentinel, ◌>>=◌, deref}
use go_frost.Group.{Group}
use go_frost.Types.{Identifier, SigningCommitments, CommitmentList}

-- `IdentifierToScalar`.
unfoldable pub identifier_to_scalar : (g : Group) → Identifier → Result g.Scalar
identifier_to_scalar g id = do
  id_bytes ← identifier_bytes g.byte_order g.scalar_length id
  g.deserialize_scalar id_bytes

module _ (g : Group) where
  unfoldable pub encode_loop : Bytes → CommitmentList g → Result Bytes
  encode_loop result [] = ok result
  encode_loop result (c ∷ cs) = do
    id_bytes ← identifier_bytes g.byte_order g.scalar_length c.identifier
    hiding ← deref c.hiding_nonce_commitment
    binding ← deref c.binding_nonce_commitment
    encode_loop (((result ++ id_bytes) ++ g.element_bytes hiding) ++ g.element_bytes binding) cs

  -- `Encode`.
  unfoldable pub encode : CommitmentList g → Result Bytes
  unfolding encode_loop
  encode cs = encode_loop [] cs

  -- `GetParticipants`.
  unfoldable pub get_participants : CommitmentList g → List Identifier
  get_participants = map (λ c. c.identifier)

  -- The loop compares each entry with the one before it.
  unfoldable pub validate_after : Identifier → CommitmentList g → Result (Unit {0})
  validate_after prev [] = ok tt
  validate_after prev (c ∷ cs) =
      let rest = validate_after c.identifier cs in
      if leb c.identifier prev
      then (if c.identifier == prev
          then fail (sentinel Sentinel.duplicate_participant)
          else fail (sentinel Sentinel.unsorted_commitments))
      else rest

  -- `ValidateCommitmentList`.
  unfoldable pub validate_commitment_list : CommitmentList g → Result (Unit {0})
  unfolding validate_after
  validate_commitment_list [] = fail (sentinel Sentinel.empty_commitment_list)
  validate_commitment_list (c ∷ cs) = validate_after c.identifier cs
