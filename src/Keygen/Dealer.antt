-- ===== src/Keygen/Dealer.antt =====
-- pkg/frost/keygen/dealer.go (`GenerateShares`, `VerifyShare`) and `TrustedDealerKeygen`
-- (pkg/frost/keygen/keygen.go).
pub mod Shares
use go_frost.Common.{
  ℕ, ◌-◌, Bool, true, false, ◌||◌, ltb, ◌==◌, not, Option, none, some, List, [], ◌∷◌, map, length,
}
use go_frost.Encoding.{identifier_to_scalar}
use go_frost.Errors.{
  Result, ok, fail, Error, parameter_error, sentinel, Sentinel, ◌>>=◌, ◌>>◌, wrap, reject_if,
}
use go_frost.Group.{Group}
use go_frost.Polynomial.{generate, evaluate}
use go_frost.Types.{Identifier, Polynomial, VerificationShare, KeyPackage}
use go_frost.Keygen.Vss.{create_commitments, verify_share}

-- The map `seen`, as the list of the identifiers put into it.
unfoldable pub contains : Identifier → List Identifier → Bool
contains id [] = false
contains id (x ∷ xs) = x == id || contains id xs

-- The loop over `participantIDs`.
unfoldable pub check_ids : List Identifier → List Identifier → Result (Unit {0})
check_ids seen [] = ok tt
check_ids seen (id ∷ ids) = do
  reject_if (id == 0) (
      parameter_error "participantIDs" "cannot contain zero"
        (sentinel Sentinel.invalid_participant))
  reject_if (contains id seen) (
      parameter_error "participantIDs" "contains duplicate"
        (sentinel Sentinel.duplicate_participant))
  check_ids (id ∷ seen) ids

-- The tests before anything is drawn.
unfoldable pub check_parameters : ℕ → ℕ → List Identifier → Result (Unit {0})
unfolding check_ids
check_parameters min_signers max_signers ids = do
  reject_if (ltb min_signers 2)
      (parameter_error "minSigners" "must be at least 2" (sentinel Sentinel.invalid_threshold))
  reject_if (ltb max_signers min_signers) (
      parameter_error "minSigners" "cannot exceed maxSigners" (sentinel Sentinel.invalid_threshold))
  reject_if (not (length ids == max_signers)) (
      parameter_error "participantIDs" "length must equal maxSigners"
        (sentinel Sentinel.invalid_parameters))
  check_ids [] ids

module _ (g : Group) where
  unfoldable pub key_packages :
      Polynomial g
      → g.Element
      → List (VerificationShare g)
      → ℕ
      → ℕ
      → List Identifier
      → Result (List (KeyPackage g))
  key_packages polynomial public_key shares min_signers max_signers [] = ok []
  key_packages polynomial public_key shares min_signers max_signers (id ∷ ids) = do
    id_scalar ←
        wrap (parameter_error "participantID" "failed to convert to scalar")
          (identifier_to_scalar g id)
    rest ← key_packages polynomial public_key shares min_signers max_signers ids
    ok (
        record {
          identifier = id;
          secret_share = evaluate g polynomial id_scalar;
          group_public_key = some public_key;
          verification_shares = shares;
          min_signers = min_signers;
          max_signers = max_signers;
        }
        ∷ rest)

  -- The secret that is shared, and the index of the first draw after it.
  unfoldable pub choose_secret : (ℕ → Result g.Scalar) → Option g.Scalar → Result (g.Scalar × ℕ)
  choose_secret rng (some s) = ok (s, 0)
  choose_secret rng none = do
    s ← wrap (parameter_error "secret" "failed to generate random secret") (rng 0)
    ok (s, 1)

  -- `GenerateShares`.
  unfoldable pub generate_shares :
      (ℕ → Result g.Scalar)
      → Option g.Scalar
      → ℕ
      → ℕ
      → List Identifier
      → Result (List (KeyPackage g) × g.Element)
  unfolding key_packages choose_secret check_parameters
  generate_shares rng secret min_signers max_signers ids = do
    check_parameters min_signers max_signers ids
    (s, i) ← choose_secret rng secret
    polynomial ← generate g rng i (some s) (min_signers - 1)
    shares ← create_commitments g polynomial
    packages ← key_packages polynomial (g.scalar_base_mult s) shares min_signers max_signers ids
    ok (packages, g.scalar_base_mult s)

  public_share : KeyPackage g → VerificationShare g
  public_share k = record {
    identifier = k.identifier;
    verification_key = g.scalar_base_mult k.secret_share;
  }

  with_shares : List (VerificationShare g) → KeyPackage g → KeyPackage g
  with_shares shares k = record k { verification_shares = shares }

  pub record PublicKeyPackage : Type 0 where
    pub group_public_key : g.Element
    pub verification_shares : List (VerificationShare g)

  -- `TrustedDealerKeygen`: the verification shares become the participants' public keys.
  unfoldable pub trusted_dealer_keygen :
      (ℕ → Result g.Scalar)
      → ℕ
      → ℕ
      → List Identifier
      → Result (List (KeyPackage g) × PublicKeyPackage)
  unfolding public_share with_shares
  trusted_dealer_keygen rng max_signers min_signers ids = do
    (values, public_key) ← generate_shares rng none min_signers max_signers ids
    let shares = map public_share values
    ok (
      map (with_shares shares) values,
      record { group_public_key = public_key; verification_shares = shares },
    )
