-- ===== src/Tests/Signed.antt =====
-- The service signs with two packages of the dealer's kind, from given random bytes.
use go_frost.Common.{ℕ, ◌≡◌, ◌≢◌, refl, some, [], ◌∷◌, arith, List, if◌then◌else◌, ◌%◌, ◌==◌}
use go_frost.Bytes.{Bytes, identifier_bytes}
use go_frost.Encoding.{encode, identifier_to_scalar}
use go_frost.Errors.{Result, ok}
use go_frost.Service.Frost.{service_sign, service_verify, threshold_of}
use go_frost.Service.Frost.Signed.{packages_of, IsDrawn, service_sign-service_verify}
use go_frost.Signing.Honest.{Signer, IsHonest, nonce_of, session_prefix, session_challenge}
use go_frost.Signing.Participant.{round_one}
use go_frost.Types.{Signature, VerificationShare}
use go_frost.Tests.Toy.{F7, f0, f2, f3, toy, suite, add}
use go_frost.Tests.ToyLaws.{laws}
use go_frost.Tests.Sessions.{first, third, first-IsHonest, third-IsHonest, message, apart, poly}

-- The participants of Sessions with the nonces that round one makes from the bytes 1 and 3.
abbrev fresh : Signer suite → Signer suite
fresh p = record p {
  hiding = suite.h3 (1 ∷ suite.bytes p.share);
  binding = suite.h3 (3 ∷ suite.bytes p.share);
}

abbrev alternating : ℕ → Result Bytes
alternating n = if n % 2 == 0 then ok (1 ∷ []) else ok (3 ∷ [])

abbrev coefficients : List (VerificationShare toy)
coefficients =
    record { identifier = 0; verification_key = f3 }
    ∷ record { identifier = 1; verification_key = f2 }
    ∷ []

abbrev signers : List (Signer suite)
signers = fresh first ∷ fresh third ∷ []

drawn : IsDrawn suite f3 2 coefficients alternating 0 signers
unfolding round_one
drawn = (refl, (refl, tt))

fresh-IsHonest :
    (p : Signer suite)
    → IsHonest suite poly p
    → (fresh p).hiding ≢ f0
    → (fresh p).binding ≢ f0
    → IsHonest suite poly (fresh p)
fresh-IsHonest p h n m = record {
  small = h.small;
  has_scalar = h.has_scalar;
  has_share = h.has_share;
  hiding-ne-zero = n;
  binding-ne-zero = m;
}

abbrev fresh_nonce : F7
fresh_nonce =
    add (nonce_of suite (session_prefix suite f3 signers message) (fresh first))
      (add (nonce_of suite (session_prefix suite f3 signers message) (fresh third)) f0)

fresh_nonce-ne-zero : fresh_nonce ≢ f0
unfolding encode identifier_to_scalar identifier_bytes
fresh_nonce-ne-zero = apart fresh_nonce f0 refl

fresh_challenge-ne-zero : session_challenge suite f3 fresh_nonce message ≢ f0
unfolding encode identifier_to_scalar identifier_bytes
fresh_challenge-ne-zero = apart (session_challenge suite f3 fresh_nonce message) f0 refl

two_of_two : 2 ≡ threshold_of toy 2 coefficients
unfolding threshold_of
two_of_two = refl

service_sign-service_verify_example :
    (signature : Signature toy) × (service_sign suite alternating
        (some (packages_of suite f3 2 coefficients signers))
        message
      ≡ ok signature)
    × (service_verify suite message signature (some f3) ≡ ok tt)
service_sign-service_verify_example =
    service_sign-service_verify suite laws f3 2 coefficients alternating f3 (f2 ∷ []) message
      (fresh first) (fresh third ∷ []) refl two_of_two drawn
      (
        fresh-IsHonest first first-IsHonest (apart (fresh first).hiding f0 refl)
            (apart (fresh first).binding f0 refl),
        (
          fresh-IsHonest third third-IsHonest (apart (fresh third).hiding f0 refl)
              (apart (fresh third).binding f0 refl),
          tt,
        ),
      )
      (omega arith, tt) (omega arith) (omega arith) (omega arith) (apart f3 f0 refl)
      fresh_nonce-ne-zero fresh_challenge-ne-zero
