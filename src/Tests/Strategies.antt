-- ===== src/Tests/Strategies.antt =====
-- The strategies against invalid shares in the session of Sessions: the third participant cheats.
use go_frost.Common.{◌≡◌, refl, some, [], ◌∷◌, map, arith, inl, inr, List}
use go_frost.Errors.{Error, fail}
use go_frost.Errors.Culprits.{get_culprits}
use go_frost.Signing.Honest.{Signer, commitments_of}
use go_frost.Signing.Honest.Checked.{key_of}
use go_frost.Signing.Honest.Sign.{response}
use go_frost.Signing.Strategy.{aggregate_with_strategy, all_cheaters}
use go_frost.Signing.Strategy.Cheaters.{answers, cheaters, aggregate_with_strategy-cheaters}
use go_frost.Tests.Toy.{F7, f0, f3, suite}
use go_frost.Tests.ToyLaws.{laws}
use go_frost.Tests.Sessions.{
  first, third, first-IsHonest, third-IsHonest, message, poly, prefix, challenge, group_nonce,
  group_nonce-ne-zero, challenge-ne-zero, another_response,
}

abbrev all : List (Signer suite)
all = first ∷ third ∷ []

abbrev given : List (Signer suite × F7)
given = (first, (response suite laws prefix all challenge first).signature_share) ∷ (third, f0) ∷ []

aggregate_with_strategy-cheaters_example :
    (e : Error) × (aggregate_with_strategy suite
        (some f3)
        (commitments_of suite all)
        message
        (answers suite laws given)
        (map (key_of suite) all)
        all_cheaters
        2
      ≡ fail e)
    × (get_culprits e ≡ cheaters suite laws prefix all challenge given)
aggregate_with_strategy-cheaters_example =
    aggregate_with_strategy-cheaters suite laws poly f3 2 message group_nonce challenge first
      (third ∷ []) given (third, f0) refl refl (first-IsHonest, (third-IsHonest, tt))
      (omega arith, tt) (omega arith) group_nonce-ne-zero challenge-ne-zero
      (inl refl, (inr (inl refl), tt)) (inr (inl refl)) another_response
