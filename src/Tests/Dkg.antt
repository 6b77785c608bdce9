-- ===== src/Tests/Dkg.antt =====
-- The theorems about distributed key generation, applied to participants in the toy group.
use go_frost.Common.{ℕ, ◌≤◌, ◌≡◌, ◌≢◌, ◌↔◌, refl, some, List, [], ◌∷◌, map, length, arith, reverse}
use mathlib.Core.List.Permᴰ
use mathlib.Core.List.{Permᴰ}
use go_frost.Algebra.Sums.{sum}
use go_frost.Bytes.{identifier_bytes}
use go_frost.Encoding.{identifier_to_scalar}
use go_frost.Errors.{ok}
use go_frost.Group.Scalars.{scalars}
use go_frost.Polynomial.{evaluate, random_scalars}
use go_frost.Keygen.Dkg.{
  Proof, Round1Package, Round1SecretPackage, validate_parameters, proof_challenge,
  compute_proof_of_knowledge, make_packages, part1, verify_proof_of_knowledge,
}
use go_frost.Keygen.Dkg.Knowledge.{challenge_of, verify_proof_of_knowledge-response, part1-accepted}
use go_frost.Keygen.Dkg.Rounds.{Walks, part3, verify_received, part2}
use go_frost.Keygen.Dkg.Honest.{
  Peer, IsPeer, IsWalks, round1_of, round2_of, secret_of, joint_polynomial,
  verify_received-evaluate,
}
use go_frost.Keygen.Dkg.Keys.{public_of, key_of, part3-joint}
use go_frost.Tests.Toy.{F7, f1, f2, f3, f4, f5, toy, suite}
use go_frost.Tests.ToyLaws.{laws}
use go_frost.Keygen.Dkg.Sent.{start_of, sent_to, IsProven, part2-sent}

abbrev no_proof : Proof toy
no_proof = record { r = some f1; z = some f1 }

abbrev alice : Peer suite
alice = record { identifier = 1; x = f1; poly = f1 ∷ f2 ∷ []; proof = no_proof }

abbrev carol : Peer suite
carol = record { identifier = 3; x = f3; poly = f2 ∷ f5 ∷ []; proof = no_proof }

abbrev bob : Peer suite
bob = record { identifier = 2; x = f2; poly = f3 ∷ f4 ∷ []; proof = no_proof }

alice-IsPeer : IsPeer suite 2 alice
unfolding identifier_to_scalar identifier_bytes
alice-IsPeer = record { has_scalar = refl; coefficients = refl }

carol-IsPeer : IsPeer suite 2 carol
unfolding identifier_to_scalar identifier_bytes
carol-IsPeer = record { has_scalar = refl; coefficients = refl }

bob-IsPeer : IsPeer suite 2 bob
unfolding identifier_to_scalar identifier_bytes
bob-IsPeer = record { has_scalar = refl; coefficients = refl }

-- Some loops walk a map in the order of its entries, some in the opposite one.
abbrev walks : Walks toy
walks = record {
  senders = λ m. reverse m;
  received = λ m. m;
  listed = λ m. reverse m;
  collected = λ m. m;
  summed = λ m. reverse m;
  evaluated = λ m. m;
}

walks-IsWalks : IsWalks suite laws walks
walks-IsWalks = record {
  senders = λ m. Permᴰ.reverse m;
  received = λ m. Permᴰ.refl m;
  listed = λ m. Permᴰ.reverse m;
  collected = λ m. Permᴰ.refl m;
  summed = λ m. Permᴰ.reverse m;
  evaluated = λ m. Permᴰ.refl m;
}

part3-joint_example :
    (c : F7) × (cs : List F7) × (joint_polynomial suite laws 2 (carol ∷ bob ∷ alice ∷ []) ≡ c ∷ cs)
    × ((x : F7)
        → evaluate toy (c ∷ cs) x
          ≡ sum ⦃f = scalars toy laws⦄ (alice ∷ bob ∷ carol ∷ []) (λ p. evaluate toy p.poly x))
    × ((bs ds : List (Peer suite)) × Permᴰ bs (alice ∷ bob ∷ carol ∷ [])
        × Permᴰ ds (alice ∷ bob ∷ carol ∷ [])
        × (part3 suite walks
              (some (secret_of suite 2 3 alice))
              (map (round1_of suite) (bob ∷ carol ∷ []))
              (map (round2_of suite alice) (carol ∷ bob ∷ []))
            ≡ ok (key_of suite laws 2 3 c cs alice ds, public_of suite laws c cs bs)))
part3-joint_example =
    part3-joint suite laws walks 1 3 alice (bob ∷ carol ∷ []) (carol ∷ bob ∷ [])
      (carol ∷ bob ∷ alice ∷ []) walks-IsWalks (Permᴰ.swap refl refl)
      (Permᴰ.reverse (carol ∷ bob ∷ alice ∷ []))
      ((omega arith, (omega arith, tt)), ((omega arith, tt), (tt, tt)))
      (alice-IsPeer, (bob-IsPeer, (carol-IsPeer, tt))) refl (omega arith)

verify_received-evaluate_example :
    (verify_received suite 1 (some f3) (f1 ∷ f2 ∷ []) ≡ ok tt)
    ↔ (f3 ≡ evaluate toy (f1 ∷ f2 ∷ []) f1)
verify_received-evaluate_example =
    verify_received-evaluate suite laws 1 f1 f3 f1 (f2 ∷ []) alice-IsPeer.has_scalar

verify_proof_of_knowledge-response_example :
    (verify_proof_of_knowledge suite 1 (
        some (record {
          commitment = f2 ∷ f5 ∷ [];
          proof_of_knowledge = record { r = some f3; z = some f4 };
        }))
      ≡ ok tt)
    ↔ (f4 ≡ toy.add f3 (toy.mul f2 (challenge_of suite laws 1 f2 f3)))
verify_proof_of_knowledge-response_example =
    verify_proof_of_knowledge-response suite laws 1 f2 f3 f4 (f5 ∷ [])

abbrev secret_package : Round1SecretPackage toy
secret_package = record {
  identifier = 1;
  coefficients = f4 ∷ f4 ∷ [];
  commitment = f4 ∷ f4 ∷ [];
  min_signers = 2;
  max_signers = 3;
}

abbrev public_package : Round1Package toy
public_package = record {
  commitment = f4 ∷ f4 ∷ [];
  proof_of_knowledge = record { r = some f4; z = some f2 };
}

started : part1 suite (λ _. ok f4) 1 3 2 ≡ ok (secret_package, public_package)
unfolding part1 validate_parameters random_scalars make_packages compute_proof_of_knowledge
    proof_challenge identifier_bytes
started = refl

part1-accepted_example :
    (verify_proof_of_knowledge suite 1 (some public_package) ≡ ok tt)
    × (public_package.commitment ≡ map (λ (a : F7). a) secret_package.coefficients)
    × (secret_package.commitment ≡ public_package.commitment)
    × (length secret_package.coefficients ≡ 2)
    × (◌≢◌ {A = ℕ} 1 0)
    × (◌≤◌ 2 2)
    × (◌≤◌ 2 3)
part1-accepted_example =
    part1-accepted suite laws (λ _. ok f4) 1 3 2 secret_package public_package started

-- A participant with a proof that is accepted.
abbrev dave : Peer suite
dave = record {
  identifier = 3;
  x = f3;
  poly = f2 ∷ f5 ∷ [];
  proof = record {
    r = some f3;
    z = some (toy.add f3 (toy.mul f2 (challenge_of suite laws 3 f2 f3)));
  };
}

dave-IsProven : IsProven suite dave
dave-IsProven =
    (verify_proof_of_knowledge-response suite laws 3 f2 f3
        (toy.add f3 (toy.mul f2 (challenge_of suite laws 3 f2 f3))) (f5 ∷ [])).1
      refl

dave-IsPeer : IsPeer suite 2 dave
unfolding identifier_to_scalar identifier_bytes
dave-IsPeer = record { has_scalar = refl; coefficients = refl }

part2-sent_example :
    part2 suite (some (start_of suite 2 2 alice)) (map (round1_of suite) (dave ∷ []))
    ≡ ok (secret_of suite 2 2 alice, map (sent_to suite alice) (dave ∷ []))
part2-sent_example =
    part2-sent suite 2 2 alice (dave ∷ []) (alice-IsPeer, (dave-IsPeer, tt)) (dave-IsProven, tt)
      refl (omega arith)
