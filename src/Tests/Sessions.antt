-- ===== src/Tests/Sessions.antt =====
-- The theorems about shares and signing, applied to a 2-of-n sharing of the secret 3 in the toy
-- group: the polynomial is 3 + 2x.
use go_frost.Common.{
  ◌≡◌, ◌≢◌, refl, some, [], ◌∷◌, arith, inl, inr, false, ap, ◌++◌, map, ◌↔◌, List,
}
use go_frost.Errors.{ok, ◌>>=◌, fail}
use go_frost.Bytes.{Bytes, identifier_bytes}
use go_frost.Encoding.{identifier_to_scalar, encode}
use go_frost.Polynomial.{evaluate}
use go_frost.Types.{Polynomial, VerificationShare}
use go_frost.Keygen.Reconstruct.{Point, recover_secret, reconstruct}
use go_frost.Keygen.Reconstruct.Secret.{recover_secret-constant, reconstruct-constant}
use go_frost.Signing.Aggregator.{aggregate, verify, aggregate_with_verification}
use go_frost.Signing.Participant.{verify_signature_share}
use go_frost.Signing.Honest.{
  Signer, IsHonest, commitments_of, nonce_of, session_prefix, session_challenge, package_of,
  sign_all,
}
use go_frost.Signing.Honest.Sign.{response}
use go_frost.Signing.Honest.Verify.{session-verify, verify-response}
use go_frost.Tests.Toy.{F7, f0, f1, f2, f3, f4, f5, toy, suite, equal, add}
use go_frost.Tests.ToyLaws.{laws, equal-refl_toy}
use go_frost.Signing.Honest.Checked.{key_of, share_of, blame}
use go_frost.Signing.Honest.Aborts.{session-checked, session-culprit}
use go_frost.Errors.Culprits.{get_culprits}
use go_frost.Polynomial.Lagrange.{weight_at_zero}
use go_frost.Signing.Honest.Coefficients.{verify_signature_share-coefficients}

-- Scalars that a test tells apart are not equal.
pub apart : (a b : F7) → equal a b ≡ false → a ≢ b
apart a b h e = cc (equal-refl_toy a, ap (equal a) e, h)

abbrev pub poly : Polynomial toy
poly = f3 ∷ f2 ∷ []

one_scalar : identifier_to_scalar toy 1 ≡ ok f1
unfolding identifier_to_scalar identifier_bytes
one_scalar = refl

three_scalar : identifier_to_scalar toy 3 ≡ ok f3
unfolding identifier_to_scalar identifier_bytes
three_scalar = refl

abbrev pub first : Signer suite
first = record { identifier = 1; x = f1; share = f5; hiding = f2; binding = f3 }

abbrev pub third : Signer suite
third = record { identifier = 3; x = f3; share = f2; hiding = f4; binding = f5 }

pub first-IsHonest : IsHonest suite poly first
unfolding evaluate
first-IsHonest = record {
  small = omega arith;
  has_scalar = one_scalar;
  has_share = refl;
  hiding-ne-zero = apart f2 f0 refl;
  binding-ne-zero = apart f3 f0 refl;
}

pub third-IsHonest : IsHonest suite poly third
unfolding evaluate
third-IsHonest = record {
  small = omega arith;
  has_scalar = three_scalar;
  has_share = refl;
  hiding-ne-zero = apart f4 f0 refl;
  binding-ne-zero = apart f5 f0 refl;
}

abbrev pub message : Bytes
message = 9 ∷ []

abbrev pub group_nonce : F7
group_nonce =
    add (nonce_of suite (session_prefix suite f3 (first ∷ third ∷ []) message) first)
      (add (nonce_of suite (session_prefix suite f3 (first ∷ third ∷ []) message) third) f0)

pub group_nonce-ne-zero : group_nonce ≢ f0
unfolding encode identifier_to_scalar identifier_bytes
group_nonce-ne-zero = apart group_nonce f0 refl

pub challenge-ne-zero : session_challenge suite f3 group_nonce message ≢ f0
unfolding encode identifier_to_scalar identifier_bytes
challenge-ne-zero = apart (session_challenge suite f3 group_nonce message) f0 refl

session-verify_example :
    (do
      shares ←
          sign_all suite f3 2 message
            (commitments_of suite (first ∷ third ∷ []))
            (first ∷ third ∷ [])
      signature ←
          aggregate suite 2 (some f3) (commitments_of suite (first ∷ third ∷ [])) message shares
      verify suite message signature (some f3))
    ≡ ok tt
session-verify_example =
    session-verify suite laws f3 (f2 ∷ []) 2 message first (third ∷ [])
      (first-IsHonest, (third-IsHonest, tt)) (omega arith, tt) (omega arith) (omega arith)
      (apart f3 f0 refl) group_nonce-ne-zero challenge-ne-zero

abbrev first_point : Point toy
first_point = record { identifier = 1; x = f1; share = f5 }

abbrev third_point : Point toy
third_point = record { identifier = 3; x = f3; share = f2 }

first_share : f5 ≡ evaluate toy poly f1
unfolding evaluate
first_share = refl

third_share : f2 ≡ evaluate toy poly f3
unfolding evaluate
third_share = refl

recover_secret-constant_example : recover_secret toy (some ((3, f2) ∷ (1, f5) ∷ [])) ≡ ok f3
recover_secret-constant_example =
    recover_secret-constant toy laws f3 (f2 ∷ []) (third_point ∷ first_point ∷ [])
      ((omega arith, three_scalar), ((omega arith, one_scalar), tt))
      (third_share, (first_share, tt)) ((omega arith, tt), (tt, tt)) (omega arith)

reconstruct-constant_example : reconstruct toy ((1, some f5) ∷ (3, some f2) ∷ []) ≡ ok f3
reconstruct-constant_example =
    reconstruct-constant toy laws f3 (f2 ∷ []) (first_point ∷ third_point ∷ [])
      ((omega arith, one_scalar), ((omega arith, three_scalar), tt))
      (first_share, (third_share, tt)) ((omega arith, tt), (tt, tt)) (omega arith)

session-checked_example :
    (do
      shares ←
          sign_all suite f3 2 message
            (commitments_of suite (first ∷ third ∷ []))
            (first ∷ third ∷ [])
      signature ←
          aggregate_with_verification suite 2
            (some f3)
            (commitments_of suite (first ∷ third ∷ []))
            message
            shares
            (map (key_of suite) (first ∷ third ∷ []))
      verify suite message signature (some f3))
    ≡ ok tt
session-checked_example =
    session-checked suite laws f3 (f2 ∷ []) 2 message first (third ∷ [])
      (first-IsHonest, (third-IsHonest, tt)) (omega arith, tt) (omega arith) (omega arith)
      (apart f3 f0 refl) group_nonce-ne-zero challenge-ne-zero

abbrev pub prefix : Bytes
prefix = session_prefix suite f3 (first ∷ third ∷ []) message

abbrev pub challenge : F7
challenge = session_challenge suite f3 group_nonce message

pub another_response :
    f0 ≢ (response suite laws prefix (first ∷ third ∷ []) challenge third).signature_share
unfolding encode identifier_to_scalar identifier_bytes
another_response =
    apart f0 (response suite laws prefix (first ∷ third ∷ []) challenge third).signature_share refl

session-culprit_example :
    (aggregate_with_verification suite 2
        (some f3)
        (commitments_of suite (first ∷ third ∷ []))
        message
        (map (response suite laws prefix (first ∷ third ∷ []) challenge) (first ∷ [])
          ++ (share_of suite laws third f0 ∷ []))
        (map (key_of suite) (first ∷ third ∷ []))
      ≡ fail (blame suite laws third))
    × (get_culprits (blame suite laws third) ≡ third.identifier ∷ [])
session-culprit_example =
    session-culprit suite laws poly f3 2 message first (third ∷ []) (first ∷ []) third f0 []
      group_nonce challenge refl refl (first-IsHonest, (third-IsHonest, tt)) (omega arith, tt)
      (omega arith) group_nonce-ne-zero challenge-ne-zero (inl refl, tt) (inr (inl refl))
      another_response

-- The public keys of the two participants, which are not commitments to the coefficients.
abbrev public_keys : List (VerificationShare toy)
public_keys =
    record { identifier = 1; verification_key = f5 }
    ∷ record { identifier = 3; verification_key = f2 }
    ∷ []

verify_signature_share-coefficients_example :
    (verify_signature_share suite
        (package_of suite f3 2 public_keys first)
        (share_of suite laws third f1)
        message
        (commitments_of suite (first ∷ third ∷ []))
      ≡ ok tt)
    ↔ (f1
        ≡ toy.add (nonce_of suite prefix third) (
            toy.mul
              (toy.mul (weight_at_zero toy laws (f1 ∷ f3 ∷ []) f3) (evaluate toy (f5 ∷ f2 ∷ []) f3))
              challenge))
verify_signature_share-coefficients_example =
    verify_signature_share-coefficients suite laws poly f3 2 public_keys (f5 ∷ f2 ∷ []) message
      first (third ∷ []) first third f1 challenge refl refl (first-IsHonest, (third-IsHonest, tt))
      (omega arith, tt) challenge-ne-zero (inr (inl refl))

verify-response_example :
    (verify suite message (record { r = some group_nonce; z = some f4 }) (some f3) ≡ ok tt)
    ↔ (f4 ≡ toy.add group_nonce (toy.mul f3 challenge))
verify-response_example =
    verify-response suite laws f3 group_nonce f4 message (apart f3 f0 refl) group_nonce-ne-zero
      challenge-ne-zero
