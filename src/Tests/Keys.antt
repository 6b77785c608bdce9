-- ===== src/Tests/Keys.antt =====
-- The theorems about polynomials, commitments, encodings and the dealer, applied in the toy group.
use go_frost.Common.{
  ℕ, ◌≡◌, ◌↔◌, refl, none, some, List, [], ◌∷◌, map, All, Elem, Distinct, arith, length, ◌≤◌,
}
use go_frost.Errors.{Result, ok, panic}
use go_frost.Bytes.{identifier_bytes}
use go_frost.Encoding.{identifier_to_scalar, validate_commitment_list}
use go_frost.Signing.Aggregator.{aggregate}
use go_frost.Signing.Aggregator.Absent.{round_two-aggregate-panic}
use go_frost.Signing.Participant.{round_two}
use go_frost.Polynomial.{evaluate, generate, random_scalars, derive_interpolating_value}
use go_frost.Polynomial.Lagrange.{derive-ok_iff, weight_at_zero}
use go_frost.Types.{
  Identifier, Polynomial, SigningCommitments, KeyPackage, VerificationShare, SigningNonces,
  SignatureShare,
}
use go_frost.Keygen.Vss.{create_commitments, verify_share, commitments_from}
use go_frost.Keygen.Vss.Accepts.{verify_share-evaluate}
use go_frost.Keygen.Dealer.{
  check_ids, check_parameters, key_packages, choose_secret, generate_shares, contains,
}
use go_frost.Keygen.Dealer.Shares.{IsDealt, generate_shares-IsDealt}
use go_frost.Tests.Toy.{F7, f1, f2, f3, f5, toy, suite}
use go_frost.Tests.ToyLaws.{laws}

abbrev poly : Polynomial toy
poly = f3 ∷ f2 ∷ []

one_scalar : identifier_to_scalar toy 1 ≡ ok f1
unfolding identifier_to_scalar identifier_bytes
one_scalar = refl

abbrev draw : ℕ → Result F7
draw i = ok f2

drawn : generate toy draw 0 (some f3) 1 ≡ ok poly
unfolding generate random_scalars
drawn = refl

derive-ok_iff_example : (derive_interpolating_value toy (f1 ∷ f3 ∷ []) (some f3) ≡ ok f3) ↔ (
    Elem f3 (f1 ∷ f3 ∷ [])
    × Distinct (f1 ∷ f3 ∷ [])
    × (f3 ≡ weight_at_zero toy laws (f1 ∷ f3 ∷ []) f3))
derive-ok_iff_example = derive-ok_iff toy laws (f1 ∷ f3 ∷ []) f3 f3

abbrev half_empty : SigningCommitments toy
half_empty = record {
  identifier = 1;
  hiding_nonce_commitment = some f2;
  binding_nonce_commitment = none;
}

abbrev half_empty_key : KeyPackage toy
half_empty_key = record {
  identifier = 1;
  secret_share = f5;
  group_public_key = some f3;
  verification_shares = [];
  min_signers = 1;
  max_signers = 1;
}

abbrev some_nonces : SigningNonces toy
some_nonces = record { hiding_nonce = f2; binding_nonce = f3; commitments = half_empty }

abbrev some_share : SignatureShare toy
some_share = record { identifier = 1; signature_share = f2 }

half_empty-valid : validate_commitment_list toy (half_empty ∷ []) ≡ ok tt
unfolding validate_commitment_list
half_empty-valid = refl

round_two-aggregate-panic_example :
    (round_two suite half_empty_key some_nonces (7 ∷ []) (half_empty ∷ []) ≡ panic)
    × (aggregate suite 1 (some f3) (half_empty ∷ []) (7 ∷ []) (some_share ∷ []) ≡ panic)
round_two-aggregate-panic_example =
    round_two-aggregate-panic suite laws half_empty_key some_nonces f3 (7 ∷ []) (half_empty ∷ []) 1
      (some_share ∷ []) refl half_empty-valid (λ p. p.0.1 refl) (omega arith) (omega arith)

abbrev commitments : List (VerificationShare toy)
commitments =
    record { identifier = 0; verification_key = f3 }
    ∷ record { identifier = 1; verification_key = f2 }
    ∷ []

committed : create_commitments toy poly ≡ ok commitments
unfolding create_commitments commitments_from
committed = refl

verify_share-evaluate_example :
    (verify_share toy 1 f5 commitments ≡ ok tt) ↔ (f5 ≡ evaluate toy poly f1)
verify_share-evaluate_example =
    verify_share-evaluate toy laws poly commitments 1 f1 f5 committed (omega arith) one_scalar

abbrev ids : List Identifier
ids = 1 ∷ 3 ∷ []

abbrev packages : List (KeyPackage toy)
packages =
    record {
      identifier = 1;
      secret_share = f5;
      group_public_key = some f3;
      verification_shares = commitments;
      min_signers = 2;
      max_signers = 2;
    }
    ∷ record {
      identifier = 3;
      secret_share = f2;
      group_public_key = some f3;
      verification_shares = commitments;
      min_signers = 2;
      max_signers = 2;
    }
    ∷ []

dealt : generate_shares toy draw (some f3) 2 2 ids ≡ ok (packages, f3)
unfolding generate_shares generate random_scalars create_commitments commitments_from contains
    identifier_to_scalar identifier_bytes evaluate check_ids check_parameters key_packages
    choose_secret
dealt = refl

generate_shares-IsDealt_example :
    (s : F7) × (rest : Polynomial toy) × ((t : F7) → some f3 ≡ some t → s ≡ t)
    × (f3 ≡ s)
    × (length (s ∷ rest) ≡ 2)
    × (◌≤◌ 2 2)
    × (◌≤◌ 2 2)
    × (length ids ≡ 2)
    × Distinct ids
    × (map (λ k. k.identifier) packages ≡ ids)
    × All (IsDealt toy laws (s ∷ rest) f3) packages
generate_shares-IsDealt_example =
    generate_shares-IsDealt toy laws draw (some f3) 2 2 ids packages f3 dealt

hashed : 4 ≤ length (suite.bytes (suite.hid (7 ∷ [])))
hashed = omega arith
