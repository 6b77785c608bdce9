-- ===== src/Tests/Refresh.antt =====
-- The theorems about refreshing and about the order of a commitment list, applied in the toy group.
use go_frost.Common.{◌-◌, ◌≡◌, refl, none, some, List, [], ◌∷◌, map, length, All, insert, look_up}
use go_frost.Bytes.{identifier_bytes, one_bytes}
use go_frost.Commitments.{evaluate_commitment_polynomial}
use go_frost.Encoding.{identifier_to_scalar}
use go_frost.Errors.{ok}
use go_frost.Polynomial.{evaluate, random_scalars, scalar_one}
use go_frost.Types.{Identifier, KeyPackage, SigningCommitments}
use go_frost.Keygen.Dkg.{PublicKeyPackage}
use go_frost.Keygen.Refresh.{
  RefreshShare, refresh_loop, compute_refreshing_shares, update_shares, apply_refresh_share,
}
use go_frost.Keygen.Refresh.Secret.{
  IsRefresh, refreshed, apply_refresh_share-refreshed, compute_refreshing_shares-IsRefresh,
}
use go_frost.Tests.Toy.{F7, f0, f1, f2, f3, f4, f5, toy}
use go_frost.Tests.ToyLaws.{laws}

-- The share at 3 of the polynomial 4x.
abbrev refresh : RefreshShare toy
refresh = record { identifier = 3; share = some f5; commitment = f4 ∷ [] }

refresh-IsRefresh : IsRefresh toy laws (f4 ∷ []) refresh
unfolding identifier_to_scalar identifier_bytes evaluate
refresh-IsRefresh = record { x = f3; has_scalar = refl; has_share = refl; has_commitment = refl }

-- The share at 3 of the polynomial 3 + 2x.
abbrev key : KeyPackage toy
key = record {
  identifier = 3;
  secret_share = f2;
  group_public_key = some f3;
  verification_shares = [];
  min_signers = 2;
  max_signers = 3;
}

key_share : f2 ≡ evaluate toy (f3 ∷ f2 ∷ []) refresh-IsRefresh.x
unfolding evaluate refresh-IsRefresh
key_share = refl

apply_refresh_share-refreshed_example :
    apply_refresh_share toy refresh (some key)
    ≡ ok (record {
      identifier = 3;
      secret_share = evaluate toy (refreshed toy laws f3 (f2 ∷ []) (f4 ∷ [])) refresh-IsRefresh.x;
      group_public_key = some f3;
      verification_shares =
          update_shares toy 3
            (evaluate toy (refreshed toy laws f3 (f2 ∷ []) (f4 ∷ [])) refresh-IsRefresh.x)
            [];
      min_signers = 2;
      max_signers = 3;
    })
apply_refresh_share-refreshed_example =
    apply_refresh_share-refreshed toy laws (f4 ∷ []) refresh refresh-IsRefresh key f3 (f2 ∷ []) refl
      key_share refl

abbrev old_keys : PublicKeyPackage toy
old_keys = record { verifying_shares = (3, f2) ∷ []; verifying_key = f3 }

abbrev new_keys : PublicKeyPackage toy
new_keys = record { verifying_shares = (3, f0) ∷ []; verifying_key = f3 }

refreshed_shares :
    compute_refreshing_shares toy (λ _. ok f4) (some old_keys) 3 2 (3 ∷ [])
    ≡ ok (refresh ∷ [], new_keys)
unfolding look_up insert compute_refreshing_shares refresh_loop random_scalars identifier_to_scalar
    identifier_bytes one_bytes scalar_one evaluate_commitment_polynomial evaluate
refreshed_shares = refl

abbrev participants : List Identifier
participants = 3 ∷ []

compute_refreshing_shares-IsRefresh_example :
    (rest : List F7) × (length rest ≡ 2 - 1)
    × All (IsRefresh toy laws rest) (refresh ∷ [])
    × (map (λ r. r.identifier) (refresh ∷ []) ≡ participants)
    × (new_keys.verifying_key ≡ old_keys.verifying_key)
compute_refreshing_shares-IsRefresh_example =
    compute_refreshing_shares-IsRefresh toy laws (λ _. ok f4) old_keys 3 2 participants
      (refresh ∷ []) new_keys refreshed_shares

abbrev commitment_at : Identifier → SigningCommitments toy
commitment_at id = record {
  identifier = id;
  hiding_nonce_commitment = some f1;
  binding_nonce_commitment = none;
}
