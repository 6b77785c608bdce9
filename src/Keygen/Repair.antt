-- ===== src/Keygen/Repair.antt =====
-- pkg/frost/keygen/repairable/repairable.go: helpers give a participant its lost share back. A map of
-- deltas is the list of its entries.
pub mod Weights
pub mod Deltas
pub mod Recovered
use go_frost.Common.{
  ℕ, suc, ◌+◌, ltb, ◌==◌, if◌then◌else◌, Bool, true, false, Option, none, some, List, [], ◌∷◌,
  length, insert,
}
use go_frost.Commitments.{evaluate_commitment_polynomial}
use go_frost.Encoding.{identifier_to_scalar}
use go_frost.Errors.{
  Result, ok, fail, panic, parameter_error, participant_error, verification_error, sentinel,
  Sentinel, ◌>>=◌, ◌>>◌, wrap, reject_if, accept_if, require,
}
use go_frost.Group.{Group}
use go_frost.Polynomial.{scalar_one}
use go_frost.Types.{Identifier, KeyPackage}
use go_frost.Keygen.Dealer.{contains}

-- The loop over the helpers with the map `seen`; the result is `foundSelf`.
unfoldable pub check_helpers : Identifier → List Identifier → Bool → List Identifier → Result Bool
check_helpers own seen found_self [] = ok found_self
check_helpers own seen found_self (id ∷ ids) = do
  reject_if (contains id seen) (
      parameter_error "helperIdentifiers" "contains duplicates"
        (sentinel Sentinel.duplicate_participant))
  check_helpers own (id ∷ seen) (if id == own then true else found_self) ids

module _ (g : Group) where
  -- The loop that fills `helperScalars`.
  unfoldable pub helper_scalars : List Identifier → Result (List g.Scalar)
  helper_scalars [] = ok []
  helper_scalars (id ∷ ids) = do
    x ← wrap (participant_error id "failed to convert ID to scalar") (identifier_to_scalar g id)
    xs ← helper_scalars ids
    ok (x ∷ xs)

  -- The search for `xi`, from index `i` on.
  unfoldable pub find_index : g.Scalar → ℕ → List g.Scalar → Option ℕ
  find_index xi i [] = none
  find_index xi i (x ∷ xs) =
      let later = find_index xi (i + 1) xs in if g.equal x xi then some i else later

  -- The loop over the coordinates from index `j` on, with the numerator and the denominator.
  unfoldable pub difference_loop :
      ℕ → g.Scalar → g.Scalar → ℕ → List g.Scalar → g.Scalar → g.Scalar → g.Scalar × g.Scalar
  difference_loop xi_index x xi j [] n d = (n, d)
  difference_loop xi_index x xi j (xj ∷ xs) n d = elim (j == xi_index) [
    | true ↦ difference_loop xi_index x xi (j + 1) xs n d
    | false ↦
        difference_loop xi_index x xi (j + 1) xs (g.mul n (g.sub x xj)) (g.mul d (g.sub xi xj))
  ]

  -- `computeLagrangeCoefficient`.
  unfoldable pub compute_lagrange_coefficient :
      List g.Scalar → g.Scalar → g.Scalar → Result g.Scalar
  compute_lagrange_coefficient xs x xi = do
    xi_index ←
        require (find_index xi 0 xs)
          (parameter_error "xi" "not found in xCoords" (sentinel Sentinel.invalid_parameters))
    one ← scalar_one g
    let quotient = difference_loop xi_index x xi 0 xs one one
    denominator_inv ← wrap (parameter_error "denominator" "inversion failed") (g.inv quotient.1)
    ok (g.mul quotient.0 denominator_inv)

  -- A random delta for each helper but the last, whose delta is what is left of the contribution.
  unfoldable pub delta_loop :
      (ℕ → Result g.Scalar)
      → g.Scalar
      → ℕ
      → List (Identifier × g.Scalar)
      → g.Scalar
      → List Identifier
      → Result (List (Identifier × g.Scalar))
  delta_loop rng contribution i deltas random_sum [] = panic
  delta_loop rng contribution i deltas random_sum (id ∷ []) =
      ok (insert id (g.sub contribution random_sum) deltas)
  delta_loop rng contribution i deltas random_sum (id ∷ next ∷ ids) = do
    delta ← wrap (parameter_error "delta" "failed to generate random delta") (rng i)
    delta_loop rng contribution (i + 1) (insert id delta deltas) (g.add random_sum delta)
        (next ∷ ids)

  -- `RepairShareStep1`; `rng i` is the `i`-th random scalar.
  unfoldable pub repair_share_step1 :
      (ℕ → Result g.Scalar)
      → List Identifier
      → Option (KeyPackage g)
      → Identifier
      → Result (List (Identifier × g.Scalar))
  repair_share_step1 rng helpers key_package lost = do
    reject_if (ltb (length helpers) 2) (
        parameter_error "helperIdentifiers" "at least 2 helpers required"
          (sentinel Sentinel.insufficient_participants))
    kp ←
        require key_package
          (parameter_error "myKeyPackage" "cannot be nil" (sentinel Sentinel.invalid_parameters))
    found_self ← check_helpers kp.identifier [] false helpers
    accept_if found_self (
        parameter_error "helperIdentifiers" "must include own identifier"
          (sentinel Sentinel.invalid_participant))
    xs ← helper_scalars helpers
    xi ←
        wrap (parameter_error "myIdentifier" "failed to convert to scalar")
          (identifier_to_scalar g kp.identifier)
    x ←
        wrap (parameter_error "participantToRecover" "failed to convert to scalar")
          (identifier_to_scalar g lost)
    lambda ← compute_lagrange_coefficient xs x xi
    delta_loop rng (g.mul lambda kp.secret_share) 0 [] g.new_scalar helpers

  -- `for i := 1; i < len; i++ { total = total.Add(values[i]) }`.
  unfoldable pub add_values : g.Scalar → List g.Scalar → g.Scalar
  add_values total [] = total
  add_values total (v ∷ vs) = add_values (g.add total v) vs

  -- `RepairShareStep2`.
  unfoldable pub repair_share_step2 : List g.Scalar → Option g.Scalar
  repair_share_step2 [] = none
  repair_share_step2 (d ∷ ds) = some (add_values d ds)

  -- The check against the commitment, where there is one.
  unfoldable pub check_recovered : g.Scalar → Identifier → List g.Element → Result (Unit {0})
  check_recovered share id [] = ok tt
  check_recovered share id (c ∷ cs) = do
    x ←
        wrap (parameter_error "identifier" "failed to convert to scalar")
          (identifier_to_scalar g id)
    right ← evaluate_commitment_polynomial g (c ∷ cs) x
    accept_if (g.same (g.scalar_base_mult share) right) (
        verification_error "recoveredShare" "share verification failed"
          (sentinel Sentinel.invalid_key_share))

  -- `RepairShareStep3`.
  unfoldable pub repair_share_step3 :
      List g.Scalar → Identifier → Option g.Element → List g.Element → Result (KeyPackage g)
  repair_share_step3 [] id group_public_key commitment =
      fail (parameter_error "sigmas" "cannot be empty" (sentinel Sentinel.invalid_parameters))
  repair_share_step3 (s ∷ ss) id group_public_key commitment = do
    check_recovered (add_values s ss) id commitment
    ok (record {
      identifier = id;
      secret_share = add_values s ss;
      group_public_key = group_public_key;
      verification_shares = [];
      min_signers = 0;
      max_signers = 0;
    })
