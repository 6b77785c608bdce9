-- ===== src/Tests/Repair.antt =====
-- The repair of a share by two helpers, in the toy group.
use go_frost.Common.{◌≡◌, refl, some, [], ◌∷◌, insert, List, All, look_up, map, arith}
use go_frost.Bytes.{identifier_bytes, one_bytes}
use go_frost.Encoding.{identifier_to_scalar}
use go_frost.Errors.{ok}
use go_frost.Polynomial.{scalar_one, evaluate}
use go_frost.Types.{Identifier, KeyPackage}
use go_frost.Keygen.Dealer.{contains}
use go_frost.Keygen.Repair.{
  check_helpers, helper_scalars, find_index, difference_loop, compute_lagrange_coefficient,
  delta_loop, repair_share_step1, repair_share_step2, repair_share_step3, add_values,
}
use go_frost.Tests.Toy.{F7, f0, f2, f3, f5, toy, f1, f6}
use go_frost.Keygen.Repair.Recovered.{Run, IsRun, received, repair_share-evaluate}
use go_frost.Tests.ToyLaws.{laws}

-- The share of 3 + 2x.
abbrev holder : Identifier → F7 → KeyPackage toy
holder id share = record {
  identifier = id;
  secret_share = share;
  group_public_key = some f3;
  verification_shares = [];
  min_signers = 2;
  max_signers = 3;
}

ran1 :
    repair_share_step1 toy (λ i. ok f2) (1 ∷ 2 ∷ []) (some (holder 1 f5)) 3
    ≡ ok ((1, f2) ∷ (2, f0) ∷ [])
unfolding repair_share_step1 check_helpers contains helper_scalars identifier_to_scalar
    identifier_bytes compute_lagrange_coefficient find_index difference_loop scalar_one one_bytes
    delta_loop insert
ran1 = refl

ran2 :
    repair_share_step1 toy (λ i. ok f1) (1 ∷ 2 ∷ []) (some (holder 2 f0)) 3
    ≡ ok ((1, f1) ∷ (2, f6) ∷ [])
unfolding repair_share_step1 check_helpers contains helper_scalars identifier_to_scalar
    identifier_bytes compute_lagrange_coefficient find_index difference_loop scalar_one one_bytes
    delta_loop insert
ran2 = refl

abbrev runs : List (Run toy)
runs =
    record { key_package = holder 1 f5; x = f1; deltas = (1, f2) ∷ (2, f0) ∷ [] }
    ∷ record { key_package = holder 2 f0; x = f2; deltas = (1, f1) ∷ (2, f6) ∷ [] }
    ∷ []

runs-IsRun : All (IsRun toy (f3 ∷ f2 ∷ []) (1 ∷ 2 ∷ []) 3) runs
unfolding identifier_to_scalar identifier_bytes evaluate
runs-IsRun = (
  record { rng = λ i. ok f2; has_scalar = refl; has_share = refl; ran = ran1 },
  (record { rng = λ i. ok f1; has_scalar = refl; has_share = refl; ran = ran2 }, tt),
)

three : identifier_to_scalar toy 3 ≡ ok f3
unfolding identifier_to_scalar identifier_bytes
three = refl

summed :
    map (λ id. repair_share_step2 toy (received toy id runs)) (1 ∷ 2 ∷ []) ≡ map some (f3 ∷ f6 ∷ [])
unfolding repair_share_step2 add_values look_up
summed = refl

repair_share-evaluate_example :
    repair_share_step3 toy (f3 ∷ f6 ∷ []) 3 (some f3) (f3 ∷ f2 ∷ [])
    ≡ ok (record {
      identifier = 3;
      secret_share = evaluate toy (f3 ∷ f2 ∷ []) f3;
      group_public_key = some f3;
      verification_shares = [];
      min_signers = 0;
      max_signers = 0;
    })
repair_share-evaluate_example =
    repair_share-evaluate toy laws (f3 ∷ f2 ∷ []) 3 (some f3) f3 runs (f3 ∷ f6 ∷ []) three
      runs-IsRun (((λ e. omega arith), tt), (tt, tt)) (omega arith, (omega arith, tt)) (omega arith)
      (omega arith) summed
