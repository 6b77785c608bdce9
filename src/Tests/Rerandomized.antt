-- ===== src/Tests/Rerandomized.antt =====
-- Rerandomized signing with the participants of Sessions: the secret 3 is moved by 1.
use go_frost.Common.{◌≡◌, ◌≢◌, refl, some, [], ◌∷◌, ◌++◌, map, arith}
use go_frost.Errors.{ok, ◌>>=◌}
use go_frost.Bytes.{identifier_bytes}
use go_frost.Encoding.{encode, identifier_to_scalar}
use go_frost.Signing.Honest.{commitments_of, nonce_of, session_prefix, session_challenge}
use go_frost.Signing.Honest.Checked.{key_of}
use go_frost.Signing.Rerandomized.{
  RandomizedParams, RerandomizedAggregator, new_randomized_params, compute_randomizer,
  aggregate_randomized, verify_randomized, get_randomized_public_key,
}
use go_frost.Signing.Rerandomized.Session.{rerandomized_sign_all, rerandomized_session-verify}
use go_frost.Signing.Rerandomized.Randomizer.{compute_randomizer-moved, entry_of, entry_bytes}
use go_frost.Tests.Toy.{F7, f0, f1, f2, f3, f4, toy, suite, add}
use go_frost.Tests.ToyLaws.{laws}
use go_frost.Tests.Sessions.{first, third, first-IsHonest, third-IsHonest, message, apart}

abbrev params : RandomizedParams toy
params = record { randomizer = f1; randomizer_element = f1; randomized_verifying_key = some f4 }

abbrev aggregator : RerandomizedAggregator toy
aggregator = record { min_signers = 2; params = params }

made : new_randomized_params suite (some f1) (some f3) ≡ ok params
unfolding new_randomized_params
made = refl

abbrev moved_nonce : F7
moved_nonce =
    add (nonce_of suite (session_prefix suite f4 (first ∷ third ∷ []) message) first)
      (add (nonce_of suite (session_prefix suite f4 (first ∷ third ∷ []) message) third) f0)

moved_nonce-ne-zero : moved_nonce ≢ f0
unfolding encode identifier_to_scalar identifier_bytes
moved_nonce-ne-zero = apart moved_nonce f0 refl

moved_challenge-ne-zero : session_challenge suite f4 moved_nonce message ≢ f0
unfolding encode identifier_to_scalar identifier_bytes
moved_challenge-ne-zero = apart (session_challenge suite f4 moved_nonce message) f0 refl

rerandomized_session-verify_example :
    ((do
      shares ←
          rerandomized_sign_all suite params f3 2 message
            (commitments_of suite (first ∷ third ∷ []))
            (first ∷ third ∷ [])
      signature ←
          aggregate_randomized suite aggregator
            (commitments_of suite (first ∷ third ∷ []))
            message
            shares
            (map (key_of suite) (first ∷ third ∷ []))
      verify_randomized suite aggregator message signature)
      ≡ ok tt)
    × (get_randomized_public_key suite aggregator ≡ some f4)
rerandomized_session-verify_example =
    rerandomized_session-verify suite laws f3 f1 (f2 ∷ []) params 2 message first (third ∷ []) made
      (first-IsHonest, (third-IsHonest, tt)) (omega arith, tt) (omega arith) (omega arith)
      moved_nonce-ne-zero moved_challenge-ne-zero

compute_randomizer-moved_example :
    compute_randomizer suite message
      (commitments_of suite (first ∷ []) ++ (entry_of suite 3 f4 f2 ∷ []))
      f2
      (some f3)
    ≡ compute_randomizer suite
        (entry_bytes suite 3 f4 f2 ++ message)
        (commitments_of suite (first ∷ []))
        f2
        (some f3)
compute_randomizer-moved_example =
    compute_randomizer-moved suite message (commitments_of suite (first ∷ [])) 3 f4 f2 f2 (some f3)
