-- ===== src/Types.antt =====
-- The data of the protocol (pkg/frost/types.go). A field that some code compares with nil is an
-- option; the other interface fields, which the code uses unchecked, are present.
pub mod Identifiers
pub mod Derive
use go_frost.Common.{ℕ, Option, List}
use go_frost.Group.{Group}

-- `type Identifier uint32`.
abbrev pub Identifier : Type 0
Identifier = ℕ

pub record SigningCommitments (g : Group) : Type 0 where
  pub identifier : Identifier
  pub hiding_nonce_commitment : Option g.Element
  pub binding_nonce_commitment : Option g.Element

pub record SigningNonces (g : Group) : Type 0 where
  pub hiding_nonce : g.Scalar
  pub binding_nonce : g.Scalar
  pub commitments : SigningCommitments g

pub record SignatureShare (g : Group) : Type 0 where
  pub identifier : Identifier
  pub signature_share : g.Scalar

pub record Signature (g : Group) : Type 0 where
  pub r : Option g.Element
  pub z : Option g.Scalar

pub record VerificationShare (g : Group) : Type 0 where
  pub identifier : Identifier
  pub verification_key : g.Element

pub record KeyPackage (g : Group) : Type 0 where
  pub identifier : Identifier
  pub secret_share : g.Scalar
  pub group_public_key : Option g.Element
  pub verification_shares : List (VerificationShare g)
  pub min_signers : ℕ
  pub max_signers : ℕ

pub record BindingFactor (g : Group) : Type 0 where
  pub identifier : Identifier
  pub binding_factor : g.Scalar

-- `Polynomial.Coefficients`, the constant term first.
abbrev pub Polynomial : Group → Type 0
Polynomial g = List g.Scalar

abbrev pub CommitmentList : Group → Type 0
CommitmentList g = List (SigningCommitments g)

abbrev pub BindingFactorList : Group → Type 0
BindingFactorList g = List (BindingFactor g)
