-- ===== src/Signing/Honest.antt =====
-- A signing session in which every participant follows the protocol: what each step returns.
pub mod Commit
pub mod Sign
pub mod Verify
pub mod Checked
pub mod Aborts
pub mod Coefficients
use go_frost.Common.{ℕ, ◌-◌, ◌<◌, ◌^◌, ◌≡◌, ◌≢◌, some, List, ◌++◌, map, ◌∷◌, []}
use go_frost.Bytes.{Bytes}
use go_frost.Bytes.Inverse.{layout}
use go_frost.Encoding.{identifier_to_scalar, encode}
use go_frost.Encoding.Order.{IsIncreasing}
use go_frost.Errors.{ok, Result, ◌>>=◌}
use go_frost.Group.{Suite}
use go_frost.Polynomial.{evaluate}
use go_frost.Types.{
  Identifier, SigningCommitments, SigningNonces, BindingFactor, CommitmentList, Polynomial,
  VerificationShare, KeyPackage, SignatureShare,
}
use go_frost.Group.Scalars.{or_else}
use go_frost.Signing.Participant.{round_two}

module _ (s : Suite) where
  -- A participant with its scalar, its share of the key and its two nonces.
  pub record Signer : Type 0 where
    pub identifier : Identifier
    pub x : s.Scalar
    pub share : s.Scalar
    pub hiding : s.Scalar
    pub binding : s.Scalar

  -- The participant has a 32-bit identifier, its scalar, the polynomial's value there as its share,
  -- and nonces that are not zero.
  pub record IsHonest (poly : Polynomial s.group) (p : Signer) : Type 0 where
    pub small : p.identifier < 2 ^ 32
    pub has_scalar : identifier_to_scalar s.group p.identifier ≡ ok p.x
    pub has_share : p.share ≡ evaluate s.group poly p.x
    pub hiding-ne-zero : p.hiding ≢ s.new_scalar
    pub binding-ne-zero : p.binding ≢ s.new_scalar

  abbrev pub commitment_of : Signer → SigningCommitments s.group
  commitment_of p = record {
    identifier = p.identifier;
    hiding_nonce_commitment = some (s.scalar_base_mult p.hiding);
    binding_nonce_commitment = some (s.scalar_base_mult p.binding);
  }

  abbrev pub commitments_of : List Signer → CommitmentList s.group
  commitments_of = map commitment_of

  abbrev pub nonces_of : Signer → SigningNonces s.group
  nonces_of p = record {
    hiding_nonce = p.hiding;
    binding_nonce = p.binding;
    commitments = commitment_of p;
  }

  -- The binding factor of an identifier, after the common prefix of the H1 inputs.
  abbrev pub factor_at : Bytes → Identifier → s.Scalar
  factor_at prefix id = s.h1 (prefix ++ layout s.byte_order (s.scalar_length - 4) id)

  abbrev pub factor_of : Bytes → Signer → BindingFactor s.group
  factor_of prefix p = record {
    identifier = p.identifier;
    binding_factor = factor_at prefix p.identifier;
  }

  -- The secret behind a participant's contribution to the group commitment.
  abbrev pub nonce_of : Bytes → Signer → s.Scalar
  nonce_of prefix p = s.add p.hiding (s.mul p.binding (factor_at prefix p.identifier))

  -- The common prefix of the H1 inputs of a session.
  abbrev pub session_prefix : s.Element → List Signer → Bytes → Bytes
  session_prefix key ps msg =
      (s.element_bytes key ++ s.h4 msg) ++ s.h5 (or_else [] (encode s.group (commitments_of ps)))

  -- The secret behind the group commitment, and the challenge.
  abbrev pub session_challenge : s.Element → s.Scalar → Bytes → s.Scalar
  session_challenge key r msg =
      s.h2 ((s.element_bytes (s.scalar_base_mult r) ++ s.element_bytes key) ++ msg)

  -- The key package of a participant.
  abbrev pub package_of :
      s.Element → ℕ → List (VerificationShare s.group) → Signer → KeyPackage s.group
  package_of key mn shares p = record {
    identifier = p.identifier;
    secret_share = p.share;
    group_public_key = some key;
    verification_shares = shares;
    min_signers = mn;
    max_signers = mn;
  }

  -- Every participant runs `RoundTwo` on the same message and commitment list.
  unfoldable pub sign_all :
      s.Element
      → ℕ
      → Bytes
      → CommitmentList s.group
      → List Signer
      → Result (List (SignatureShare s.group))
  sign_all key mn msg cs [] = ok []
  sign_all key mn msg cs (p ∷ ps) = do
    share ← round_two s (package_of key mn [] p) (nonces_of p) msg cs
    shares ← sign_all key mn msg cs ps
    ok (share ∷ shares)
