-- ===== src/Signing/Api.antt =====
-- The one-call interface (pkg/frost/signing/signing.go). A map is the list of its values, in the
-- order in which the loop over it meets them; a nil pointer panics where it is dereferenced.
pub mod Sorted
pub mod Order
use go_frost.Common.{ℕ, zero, suc, ltb, if◌then◌else◌, Option, none, List, [], ◌∷◌, length}
use go_frost.Bytes.{Bytes}
use go_frost.Errors.{Result, ok, ◌>>=◌, deref}
use go_frost.Group.{Group, Suite}
use go_frost.Types.{
  Identifier, SigningCommitments, SigningNonces, SignatureShare, Signature, VerificationShare,
  KeyPackage, CommitmentList,
}
use go_frost.Signing.Participant.{round_one, round_two}
use go_frost.Signing.Aggregator.{aggregate_with_verification, verify}

module _ (g : Group) where
  -- The inner loop of `sortCommitmentList`: `x` stands at `i`, and is exchanged with each later
  -- entry that has a smaller identifier. What ends at `i`, and the entries after it.
  unfoldable pub exchange :
      SigningCommitments g → CommitmentList g → SigningCommitments g × CommitmentList g
  exchange x [] = (x, [])
  exchange x (y ∷ ys) =
      let swapped = exchange y ys in
      let kept = exchange x ys in
      if ltb y.identifier x.identifier then (swapped.0, x ∷ swapped.1) else (kept.0, y ∷ kept.1)

  -- The outer loop, with the number of positions that are left.
  unfoldable pub exchange_sort : ℕ → CommitmentList g → CommitmentList g
  exchange_sort zero cs = cs
  exchange_sort (suc n) [] = []
  exchange_sort (suc n) (c ∷ cs) = let placed = exchange c cs in placed.0 ∷ exchange_sort n placed.1

  -- `sortCommitmentList`.
  unfoldable pub sort_commitment_list : CommitmentList g → CommitmentList g
  sort_commitment_list cs = exchange_sort (length cs) cs

  -- `append(list, *c)` over the values of a map.
  unfoldable pub deref_all : {A : Type 0} → List (Option A) → Result (List A)
  deref_all [] = ok []
  deref_all (p ∷ ps) = do a ← deref p; rest ← deref_all ps; ok (a ∷ rest)

module _ (s : Suite) where
  -- `GenerateNonces`, with the results of the two reads of random bytes: the key package that is
  -- made has only an identifier and a secret share.
  unfoldable pub generate_nonces :
      Identifier
      → s.Scalar
      → Result Bytes
      → Result Bytes
      → Result (SigningNonces s.group × SigningCommitments s.group)
  generate_nonces identifier secret_share hiding_random binding_random =
      round_one s
        (record {
          identifier = identifier;
          secret_share = secret_share;
          group_public_key = none;
          verification_shares = [];
          min_signers = 0;
          max_signers = 0;
        })
        hiding_random binding_random

  -- `Sign`. The nonce package is read after the commitments.
  unfoldable pub sign :
      Bytes
      → Option (KeyPackage s.group)
      → Option (SigningNonces s.group)
      → List (Option (SigningCommitments s.group))
      → Result (SignatureShare s.group)
  sign message key_package nonce_package all_commitments = do
    kp ← deref key_package
    cs ← deref_all s.group all_commitments
    nonces ← deref nonce_package
    round_two s kp nonces message (sort_commitment_list s.group cs)

  -- `Aggregate`: all of the shares that are given count as the threshold.
  unfoldable pub aggregate_maps :
      Bytes
      → List (Option (SigningCommitments s.group))
      → List (Option (SignatureShare s.group))
      → List (VerificationShare s.group)
      → Option s.Element
      → Result (Signature s.group)
  aggregate_maps message commitments signature_shares verification_shares group_public_key = do
    cs ← deref_all s.group commitments
    shares ← deref_all s.group signature_shares
    aggregate_with_verification s (length signature_shares) group_public_key
        (sort_commitment_list s.group cs) message shares verification_shares

  -- `VerifySignature`.
  unfoldable pub verify_signature : Bytes → Signature s.group → Option s.Element → Result (Unit {0})
  verify_signature message signature group_public_key = verify s message signature group_public_key
