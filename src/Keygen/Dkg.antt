-- ===== src/Keygen/Dkg.antt =====
-- Distributed key generation: the packages (pkg/frost/keygen/dkg/types.go), `Part1` and the proof of
-- knowledge (pkg/frost/keygen/dkg/round1.go). A map from identifiers is a list of its entries, in
-- the order in which the loops over it meet them, for which the third round takes an order each.
pub mod Knowledge
pub mod Rounds
pub mod Joint
pub mod Honest
pub mod Collected
pub mod Keys
pub mod Sent
use go_frost.Common.{ℕ, ltb, ◌==◌, Option, none, some, List, [], ◌∷◌, ◌++◌, map}
use go_frost.Bytes.{identifier_bytes}
use go_frost.Errors.{
  Result, ok, fail, panic, parameter_error, verification_error, proof_of_knowledge_error, sentinel,
  Sentinel, ◌>>=◌, ◌>>◌, wrap, reject_if, accept_if,
}
use go_frost.Group.{Group, Suite}
use go_frost.Polynomial.{random_scalars}
use go_frost.Types.{Identifier, Polynomial}

pub record Proof (g : Group) : Type 0 where
  pub r : Option g.Element
  pub z : Option g.Scalar

pub record Round1Package (g : Group) : Type 0 where
  pub commitment : List g.Element
  pub proof_of_knowledge : Proof g

pub record Round1SecretPackage (g : Group) : Type 0 where
  pub identifier : Identifier
  pub coefficients : Polynomial g
  pub commitment : List g.Element
  pub min_signers : ℕ
  pub max_signers : ℕ

pub record Round2Package (g : Group) : Type 0 where
  pub signing_share : Option g.Scalar

pub record Round2SecretPackage (g : Group) : Type 0 where
  pub identifier : Identifier
  pub commitment : List g.Element
  pub secret_share : g.Scalar
  pub min_signers : ℕ
  pub max_signers : ℕ

pub record PublicKeyPackage (g : Group) : Type 0 where
  pub verifying_shares : List (Identifier × g.Element)
  pub verifying_key : g.Element

-- `validateDKGParameters`.
unfoldable pub validate_parameters : ℕ → ℕ → Result (Unit {0})
validate_parameters min_signers max_signers = do
  reject_if (ltb min_signers 2)
      (parameter_error "minSigners" "must be at least 2" (sentinel Sentinel.invalid_threshold))
  reject_if (ltb max_signers 2)
      (parameter_error "maxSigners" "must be at least 2" (sentinel Sentinel.invalid_threshold))
  reject_if (ltb max_signers min_signers) (
      parameter_error "minSigners" "cannot exceed maxSigners" (sentinel Sentinel.invalid_threshold))

module _ (s : Suite) where
  -- `computeChallenge`.
  unfoldable pub proof_challenge : Identifier → s.Element → s.Element → Result s.Scalar
  proof_challenge identifier commitment r = do
    id_bytes ← identifier_bytes s.byte_order s.scalar_length identifier
    ok (s.hdkg ((id_bytes ++ s.element_bytes commitment) ++ s.element_bytes r))

  -- `computeProofOfKnowledge`, with the result of the draw of `k`.
  unfoldable pub compute_proof_of_knowledge :
      Result s.Scalar → Identifier → s.Scalar → s.Element → Result (Proof s.group)
  compute_proof_of_knowledge random identifier secret commitment = do
    k ← wrap (parameter_error "nonce" "failed to generate random nonce") random
    challenge ← proof_challenge identifier commitment (s.scalar_base_mult k)
    ok (record { r = some (s.scalar_base_mult k); z = some (s.add k (s.mul secret challenge)) })

  -- The end of `Part1`, once the coefficients are drawn: `coefficients[0]` panics if there is none.
  unfoldable pub make_packages :
      Result s.Scalar
      → Identifier
      → ℕ
      → ℕ
      → Polynomial s.group
      → Result (Round1SecretPackage s.group × Round1Package s.group)
  make_packages random identifier max_signers min_signers [] = panic
  make_packages random identifier max_signers min_signers (a ∷ rest) = do
    let commitment = map s.scalar_base_mult (a ∷ rest)
    proof ← compute_proof_of_knowledge random identifier a (s.scalar_base_mult a)
    ok (
      record {
        identifier = identifier;
        coefficients = a ∷ rest;
        commitment = commitment;
        min_signers = min_signers;
        max_signers = max_signers;
      },
      record { commitment = commitment; proof_of_knowledge = proof },
    )

  -- `Part1`: the coefficients are the first draws, and the nonce of the proof the next.
  unfoldable pub part1 :
      (ℕ → Result s.Scalar)
      → Identifier
      → ℕ
      → ℕ
      → Result (Round1SecretPackage s.group × Round1Package s.group)
  part1 rng identifier max_signers min_signers = do
    validate_parameters min_signers max_signers
    reject_if (identifier == 0)
        (parameter_error "identifier" "cannot be zero" (sentinel Sentinel.invalid_participant))
    coefficients ←
        random_scalars s.group
          (parameter_error "coefficients" "failed to generate random coefficient") rng 0 min_signers
    make_packages (rng min_signers) identifier max_signers min_signers coefficients

  -- The proof's components, both of which must be there.
  abbrev pub components : Proof s.group → Result (s.Element × s.Scalar)
  components p = elim p.r [
    | some r ↦ elim p.z [
      | some z ↦ ok (r, z)
      | none ↦ fail (
          verification_error "proof" "missing R or z component"
            (sentinel Sentinel.invalid_parameters))
    ]
    | none ↦ fail (
        verification_error "proof" "missing R or z component"
          (sentinel Sentinel.invalid_parameters))
  ]

  -- The test of `VerifyProofOfKnowledge`, for a commitment that is not empty.
  unfoldable pub check_proof : Identifier → List s.Element → Proof s.group → Result (Unit {0})
  check_proof identifier [] proof =
      fail (parameter_error "commitment" "cannot be empty" (sentinel Sentinel.invalid_commitment))
  check_proof identifier (c ∷ cs) proof = do
    (r, z) ← components proof
    challenge ← proof_challenge identifier c r
    accept_if (s.same (s.scalar_base_mult z) (s.plus r (s.scalar_mult c challenge))) (
        proof_of_knowledge_error identifier "verification failed: g^z != R + commitment^c"
          (sentinel Sentinel.invalid_signature))

  -- `VerifyProofOfKnowledge`.
  unfoldable pub verify_proof_of_knowledge :
      Identifier → Option (Round1Package s.group) → Result (Unit {0})
  verify_proof_of_knowledge identifier none =
      fail (parameter_error "package" "cannot be nil" (sentinel Sentinel.invalid_parameters))
  verify_proof_of_knowledge identifier (some p) =
      check_proof identifier p.commitment p.proof_of_knowledge
