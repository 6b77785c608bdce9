-- ===== src/Tests/Services.antt =====
-- A signing session of the service for the participants 3 and 1, in the toy group.
use go_frost.Common.{
  ◌≡◌, ◌≢◌, refl, none, some, [], ◌∷◌, arith, look_up, insert, Distinct, false, ℕ,
}
use mathlib.Core.List.{Permᴰ}
use go_frost.Encoding.{get_participants}
use go_frost.Encoding.Sorted.{Increasing}
use go_frost.Errors.{ok, ◌>>=◌}
use go_frost.Types.{SigningCommitments}
use go_frost.Signing.Package.{insertion_sort, shift}
use go_frost.Service.Session.{
  SigningSession, expected, exists, new_signing_session, check_open, add_commitment,
  get_commitment_list, get_signature,
}
use go_frost.Service.Session.Steps.{Step, Reached}
use go_frost.Service.Session.Accepted.{add_each, get_commitment_list-collected}
use go_frost.Service.Session.Complete.{get_commitment_list-Distinct, get_signature-ne-ok}
use go_frost.Tests.Toy.{f1, f2, f3, f4, toy}

abbrev first : SigningCommitments toy
first = record {
  identifier = 1;
  hiding_nonce_commitment = some f1;
  binding_nonce_commitment = some f2;
}

abbrev third : SigningCommitments toy
third = record {
  identifier = 3;
  hiding_nonce_commitment = some f3;
  binding_nonce_commitment = some f4;
}

participants : get_participants toy (first ∷ third ∷ []) ≡ 1 ∷ 3 ∷ []
unfolding get_participants
participants = refl

permuted : Permᴰ (get_participants toy (first ∷ third ∷ [])) (3 ∷ 1 ∷ [])
unfolding get_participants
permuted = Permᴰ.swap refl refl

get_commitment_list-collected_example :
    (add_each toy (first ∷ third ∷ []) (new_signing_session toy "s" (3 ∷ 1 ∷ []) (7 ∷ []))
      >>= get_commitment_list toy)
    ≡ ok (insertion_sort toy [] (first ∷ third ∷ []))
get_commitment_list-collected_example =
    get_commitment_list-collected toy "s" (3 ∷ 1 ∷ []) (7 ∷ []) (first ∷ third ∷ [])
      (((λ e. omega arith), tt), (tt, tt)) permuted

abbrev collected : SigningSession toy
collected = record {
  id = "s";
  participant_ids = 3 ∷ 1 ∷ [];
  message = 7 ∷ [];
  commitments = (3, third) ∷ (1, first) ∷ [];
  signature_shares = [];
  final_signature = record { r = none; z = none };
  is_complete = false;
  is_canceled = false;
  min_participants = 2;
}

collected-Reached : Reached toy (3 ∷ 1 ∷ []) collected
unfolding new_signing_session add_commitment check_open expected exists look_up insert
collected-Reached =
    Reached.step (Reached.step (Reached.start "s" (7 ∷ [])) (Step.commitment third refl))
      (Step.commitment first refl)

returned : get_commitment_list toy collected ≡ ok (first ∷ third ∷ [])
unfolding get_commitment_list insertion_sort shift
returned = refl

get_commitment_list-Distinct_example :
    Distinct {A = ℕ} (3 ∷ 1 ∷ [])
    × Permᴰ (get_participants toy (first ∷ third ∷ [])) (3 ∷ 1 ∷ [])
    × Increasing toy (first ∷ third ∷ [])
get_commitment_list-Distinct_example =
    get_commitment_list-Distinct toy (3 ∷ 1 ∷ []) collected (first ∷ third ∷ []) collected-Reached
      returned

get_signature-ne-ok_example :
    (get_signature toy collected ≢ ok (record { r = some f1; z = some f2 })) × (false ≡ false)
get_signature-ne-ok_example =
    get_signature-ne-ok toy (3 ∷ 1 ∷ []) collected (record { r = some f1; z = some f2 })
      collected-Reached
