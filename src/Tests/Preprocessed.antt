-- ===== src/Tests/Preprocessed.antt =====
-- Two nonces of the first participant, from a seed of one byte.
use go_frost.Common.{◌%◌, ◌^◌, ◌≡◌, ◌≢◌, ◌↔◌, refl, none, [], ◌∷◌}
use go_frost.Bytes.{Bytes}
use go_frost.Errors.{ok}
use go_frost.Signing.Preprocess.{
  PreprocessedNonces, next, preprocess_deterministic, hiding_input, binding_input, make_nonces,
  derive_nonces, commit_nonces, with_their_commitments,
}
use go_frost.Signing.Preprocess.Drawn.{draw, derived, nonces_at, draw-preprocess_deterministic}
use go_frost.Signing.Preprocess.Inputs.{hiding_input-binding_input}
use go_frost.Tests.Toy.{toy, suite}

abbrev seed : Bytes
seed = 5 ∷ []

abbrev preprocessed : PreprocessedNonces toy
preprocessed = record {
  nonces = nonces_at suite 1 seed 0 ∷ nonces_at suite 1 seed 1 ∷ [];
  commitments =
      (nonces_at suite 1 seed 0).commitments ∷ (nonces_at suite 1 seed 1).commitments ∷ [];
}

made_two : preprocess_deterministic suite 2 1 seed ≡ ok preprocessed
unfolding preprocess_deterministic make_nonces derive_nonces commit_nonces with_their_commitments
    hiding_input binding_input
made_two = refl

draw-preprocess_deterministic_example :
    (left : PreprocessedNonces toy) × (draw toy 2 preprocessed
      ≡ ok (derived suite 1 seed 0 2, left))
    × (next toy left ≡ ok (none, left))
draw-preprocess_deterministic_example =
    draw-preprocess_deterministic suite 1 seed 2 preprocessed made_two

hiding_input-binding_input_example :
    ((hiding_input seed 3 ≡ hiding_input seed 259) ↔ (3 % 2 ^ 32 ≡ 259 % 2 ^ 32))
    × ((binding_input seed 3 ≡ binding_input seed 259) ↔ (3 % 2 ^ 32 ≡ 259 % 2 ^ 32))
    × (hiding_input seed 3 ≢ binding_input seed 259)
hiding_input-binding_input_example = hiding_input-binding_input seed 3 259
