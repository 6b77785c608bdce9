-- ===== src/Tests/Packages.antt =====
-- A signing package from commitments in the wrong order, and the order of the commitments of a map.
use go_frost.Common.{◌≡◌, ◌↔◌, refl, none, some, [], ◌∷◌, map, Distinct, arith}
use mathlib.Core.List.{Permᴰ}
use go_frost.Encoding.{get_participants}
use go_frost.Errors.{ok}
use go_frost.Types.{SigningCommitments, KeyPackage, SigningNonces}
use go_frost.Signing.Api.{sign, aggregate_maps}
use go_frost.Signing.Api.Order.{sign-order}
use go_frost.Signing.Package.{
  SigningPackage, SigningPackageBuilder, new_signing_package, build, build_from, insertion_sort,
  shift, check_neighbours, new_builder, add_commitment, add_commitments, with_message,
}
use go_frost.Signing.Package.Built.{build-ok_iff}
use go_frost.Tests.Toy.{f1, f2, f3, f4, toy, suite}

abbrev first : SigningCommitments toy
first = record {
  identifier = 1;
  hiding_nonce_commitment = some f1;
  binding_nonce_commitment = some f2;
}

abbrev second : SigningCommitments toy
second = record {
  identifier = 2;
  hiding_nonce_commitment = some f3;
  binding_nonce_commitment = some f4;
}

abbrev added : SigningPackageBuilder toy
added = record { message = 7 ∷ []; commitments = second ∷ first ∷ []; group_public_key = none }

-- The builder's methods, as a caller chains them.
chained :
    add_commitment toy first
      (add_commitments toy (second ∷ []) (with_message toy (7 ∷ []) (new_builder toy)))
    ≡ added
unfolding add_commitment add_commitments with_message new_builder
chained = refl

abbrev package' : SigningPackage toy
package' = record {
  message = 7 ∷ [];
  commitment_list = first ∷ second ∷ [];
  group_public_key = none;
}

build-ok_iff_example : (build toy added ≡ ok package') ↔ (
    Permᴰ (first ∷ second ∷ []) (second ∷ first ∷ [])
    × (new_signing_package toy (7 ∷ []) (first ∷ second ∷ []) none ≡ ok package'))
build-ok_iff_example = build-ok_iff toy added package'

built : build toy added ≡ ok package'
unfolding build build_from insertion_sort shift check_neighbours
built = refl

abbrev signer : KeyPackage toy
signer = record {
  identifier = 1;
  secret_share = f2;
  group_public_key = some f3;
  verification_shares = [];
  min_signers = 2;
  max_signers = 2;
}

abbrev nonces : SigningNonces toy
nonces = record { hiding_nonce = f1; binding_nonce = f2; commitments = first }

distinct : Distinct (get_participants toy (first ∷ second ∷ []))
unfolding get_participants
distinct = (((λ e. omega arith), tt), (tt, tt))

sign-order_example :
    (sign suite (7 ∷ []) (some signer) (some nonces) (map some (second ∷ first ∷ []))
      ≡ sign suite (7 ∷ []) (some signer) (some nonces) (map some (first ∷ second ∷ [])))
    × (aggregate_maps suite (7 ∷ []) (map some (second ∷ first ∷ [])) (map some []) [] (some f3)
        ≡ aggregate_maps suite (7 ∷ []) (map some (first ∷ second ∷ [])) (map some []) [] (some f3))
sign-order_example =
    sign-order suite (7 ∷ []) signer nonces [] [] (some f3) (second ∷ first ∷ [])
      (first ∷ second ∷ []) (Permᴰ.swap refl refl) distinct
