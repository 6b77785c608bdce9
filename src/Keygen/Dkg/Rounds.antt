-- ===== src/Keygen/Dkg/Rounds.antt =====
-- `Part2` and `VerifyShare` (pkg/frost/keygen/dkg/round2.go), `Part3` and `aggregateCommitments`
-- (pkg/frost/keygen/dkg/round3.go). Go walks a map in any order, and in another one each time: the
-- loops of the third round take the order in which they meet the entries from a `Walks`.
use go_frost.Common.{
  ℕ, ◌+◌, ◌-◌, ◌%◌, ◌^◌, ◌==◌, not, Option, some, List, [], ◌∷◌, map, length, replicate, look_up,
  insert,
}
use go_frost.Commitments.{evaluate_commitment_polynomial}
use go_frost.Encoding.{identifier_to_scalar}
use go_frost.Errors.{
  Result, ok, fail, panic, parameter_error, participant_error, secret_share_error, sentinel,
  Sentinel, ◌>>=◌, ◌>>◌, wrap, reject_if, accept_if, require, deref,
}
use go_frost.Group.{Group, Suite}
use go_frost.Polynomial.{evaluate}
use go_frost.Types.{Identifier, KeyPackage, VerificationShare}
use go_frost.Keygen.Dkg.{
  Round1Package, Round1SecretPackage, Round2Package, Round2SecretPackage, PublicKeyPackage,
  verify_proof_of_knowledge,
}

-- `int(MaxSigners - 1)`, on 32 bits.
unfoldable pub expected_count : ℕ → ℕ
expected_count max_signers = (max_signers + (2 ^ 32 - 1)) % 2 ^ 32

-- The entries of a map in the order in which a loop meets them.
abbrev pub Walk : Type 0 → Type 0
Walk A = List (Identifier × A) → List (Identifier × A)

-- The walks of the loops of `Part3` and of `aggregateCommitments`: over `round1Packages`,
-- `round2Packages` and `VerifyingShares`, and over `round1Packages` and twice `allCommitments`.
pub record Walks (g : Group) : Type 0 where
  pub senders : Walk (Option (Round1Package g))
  pub received : Walk (Option (Round2Package g))
  pub listed : Walk g.Element
  pub collected : Walk (Option (Round1Package g))
  pub summed : Walk (List g.Element)
  pub evaluated : Walk (List g.Element)

module _ (s : Suite) where
  -- The loop of `Part2` over the proofs. A nil package panics at `pkg.Commitment`.
  unfoldable pub verify_proofs :
      ℕ → List (Identifier × Option (Round1Package s.group)) → Result (Unit {0})
  verify_proofs min_signers [] = ok tt
  verify_proofs min_signers ((sender, p) ∷ rest) = do
    received ← deref p
    reject_if (not (length received.commitment == min_signers)) (
        participant_error sender "invalid commitment length" (sentinel Sentinel.invalid_commitment))
    verify_proof_of_knowledge s sender p
    verify_proofs min_signers rest

  -- The loop of `Part2` over the peers.
  unfoldable pub peer_shares :
      Round1SecretPackage s.group
      → List (Identifier × Option (Round1Package s.group))
      → Result (List (Identifier × Option (Round2Package s.group)))
  peer_shares secret [] = ok []
  peer_shares secret ((peer, p) ∷ rest) = do
    x ←
        wrap (participant_error peer "failed to convert ID to scalar")
          (identifier_to_scalar s.group peer)
    packages ← peer_shares secret rest
    ok (
        (peer, some (record { signing_share = some (evaluate s.group secret.coefficients x) }))
        ∷ packages)

  -- `Part2`.
  unfoldable pub part2 :
      Option (Round1SecretPackage s.group)
      → List (Identifier × Option (Round1Package s.group))
      → Result (Round2SecretPackage s.group × List (Identifier × Option (Round2Package s.group)))
  part2 secret_package round1_packages = do
    secret ←
        require secret_package
          (parameter_error "secretPackage" "cannot be nil" (sentinel Sentinel.invalid_parameters))
    reject_if (not (length round1_packages == expected_count secret.max_signers)) (
        parameter_error "round1Packages" "wrong number of packages received"
          (sentinel Sentinel.insufficient_participants))
    verify_proofs secret.min_signers round1_packages
    my_id ←
        wrap (parameter_error "identifier" "failed to convert to scalar")
          (identifier_to_scalar s.group secret.identifier)
    packages ← peer_shares secret round1_packages
    ok (
      record {
        identifier = secret.identifier;
        commitment = secret.commitment;
        secret_share = evaluate s.group secret.coefficients my_id;
        min_signers = secret.min_signers;
        max_signers = secret.max_signers;
      },
      packages,
    )

  -- `VerifyShare`.
  unfoldable pub verify_received : Identifier → Option s.Scalar → List s.Element → Result (Unit {0})
  verify_received identifier share [] =
      fail (parameter_error "commitment" "cannot be empty" (sentinel Sentinel.invalid_commitment))
  verify_received identifier share (c ∷ cs) = do
    value ←
        require share
          (parameter_error "share" "cannot be nil" (sentinel Sentinel.invalid_parameters))
    x ←
        wrap (parameter_error "identifier" "failed to convert to scalar")
          (identifier_to_scalar s.group identifier)
    right ← evaluate_commitment_polynomial s.group (c ∷ cs) x
    accept_if (s.same (s.scalar_base_mult value) right)
        (participant_error identifier "invalid share" (sentinel Sentinel.invalid_key_share))

  -- The first loop of `Part3`: every sender of round 1 has a package of round 2.
  unfoldable pub check_senders :
      List (Identifier × Option (Round2Package s.group))
      → List (Identifier × Option (Round1Package s.group))
      → Result (Unit {0})
  check_senders round2_packages [] = ok tt
  check_senders round2_packages ((id, p) ∷ rest) = do
    found ←
        require (look_up id round2_packages)
          (participant_error id "missing round 2 package" (sentinel Sentinel.invalid_parameters))
    check_senders round2_packages rest

  -- The second loop: every share is verified and added. A nil package panics.
  unfoldable pub accumulate :
      Identifier
      → List (Identifier × Option (Round1Package s.group))
      → s.Scalar
      → List (Identifier × Option (Round2Package s.group))
      → Result s.Scalar
  accumulate identifier round1_packages signing_share [] = ok signing_share
  accumulate identifier round1_packages signing_share ((sender, p) ∷ rest) = do
    entry ←
        require (look_up sender round1_packages) (
          participant_error sender "missing round 1 package" (sentinel Sentinel.invalid_parameters))
    round2 ← deref p
    round1 ← deref entry
    wrap (secret_share_error sender "share verification failed: g^share != commitment evaluation")
        (verify_received identifier round2.signing_share round1.commitment)
    share ← deref round2.signing_share
    accumulate identifier round1_packages (s.add signing_share share) rest

  -- `for k := 0; k < numCoeffs; k++`, which panics past the end of the commitment.
  unfoldable pub add_commitment : List s.Element → List s.Element → Result (List s.Element)
  add_commitment [] commitment = ok []
  add_commitment (e ∷ es) [] = panic
  add_commitment (e ∷ es) (c ∷ cs) = do rest ← add_commitment es cs; ok (s.plus e c ∷ rest)

  unfoldable pub sum_commitments :
      List s.Element → List (Identifier × List s.Element) → Result (List s.Element)
  sum_commitments summed [] = ok summed
  sum_commitments summed ((id, commitment) ∷ rest) = do
    next ← add_commitment summed commitment
    sum_commitments next rest

  -- The loop that fills `allCommitments`, after this participant's own.
  unfoldable pub collect_commitments :
      List (Identifier × List s.Element)
      → List (Identifier × Option (Round1Package s.group))
      → Result (List (Identifier × List s.Element))
  collect_commitments all [] = ok all
  collect_commitments all ((id, p) ∷ rest) = do
    received ← deref p
    collect_commitments (insert id received.commitment all) rest

  unfoldable pub verifying_shares :
      List s.Element → List (Identifier × List s.Element) → Result (List (Identifier × s.Element))
  verifying_shares summed [] = ok []
  verifying_shares summed ((id, commitment) ∷ rest) = do
    x ←
        wrap (participant_error id "failed to convert ID to scalar")
          (identifier_to_scalar s.group id)
    share ← evaluate_commitment_polynomial s.group summed x
    shares ← verifying_shares summed rest
    ok ((id, share) ∷ shares)

  -- `summedCommitment[0]`.
  abbrev pub first_element : List s.Element → Result s.Element
  first_element [] = panic
  first_element (e ∷ es) = ok e

  -- `aggregateCommitments`.
  unfoldable pub aggregate_commitments :
      Walks s.group
      → Round2SecretPackage s.group
      → List (Identifier × Option (Round1Package s.group))
      → Result (PublicKeyPackage s.group)
  aggregate_commitments walks secret round1_packages = do
    all ←
        collect_commitments ((secret.identifier, secret.commitment) ∷ [])
          (walks.collected round1_packages)
    summed ← sum_commitments (replicate secret.min_signers s.identity) (walks.summed all)
    key ← first_element summed
    shares ← verifying_shares summed (walks.evaluated all)
    ok (record { verifying_shares = shares; verifying_key = key })

  abbrev pub share_entry : Identifier × s.Element → VerificationShare s.group
  share_entry e = record { identifier = e.0; verification_key = e.1 }

  -- `Part3`.
  unfoldable pub part3 :
      Walks s.group
      → Option (Round2SecretPackage s.group)
      → List (Identifier × Option (Round1Package s.group))
      → List (Identifier × Option (Round2Package s.group))
      → Result (KeyPackage s.group × PublicKeyPackage s.group)
  part3 walks secret_package round1_packages round2_packages = do
    secret ← require secret_package (
        parameter_error "round2SecretPackage" "cannot be nil"
          (sentinel Sentinel.invalid_parameters))
    reject_if (not (length round1_packages == expected_count secret.max_signers)) (
        parameter_error "round1Packages" "wrong number of packages"
          (sentinel Sentinel.insufficient_participants))
    reject_if (not (length round2_packages == expected_count secret.max_signers)) (
        parameter_error "round2Packages" "wrong number of packages"
          (sentinel Sentinel.insufficient_participants))
    check_senders round2_packages (walks.senders round1_packages)
    signing_share ←
        accumulate secret.identifier round1_packages secret.secret_share
          (walks.received round2_packages)
    public_package ← aggregate_commitments walks secret round1_packages
    ok (
      record {
        identifier = secret.identifier;
        secret_share = signing_share;
        group_public_key = some public_package.verifying_key;
        verification_shares = map share_entry (walks.listed public_package.verifying_shares);
        min_signers = secret.min_signers;
        max_signers = secret.max_signers;
      },
      public_package,
    )
