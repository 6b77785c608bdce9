-- ===== src/Tests/Coordinators.antt =====
-- The coordinator, the sessions of the service, and the trackers of commitments at concrete inputs.
use go_frost.Common.{◌≡◌, refl, none, some, [], ◌∷◌, arith, look_up, erase, All}
use mathlib.Core.List.{Permᴰ}
use go_frost.Encoding.{validate_commitment_list, validate_after}
use go_frost.Errors.{ok, Result, fail, sentinel, participant_error, ◌>>=◌, Sentinel}
use go_frost.Types.{Signature, CommitmentList}
use go_frost.Signing.Aggregator.{verify}
use go_frost.Signing.Honest.{Signer, commitment_of, nonces_of, commitments_of}
use go_frost.Signing.Coordinator.{
  Participant, Coordinator, CoordinatorState, check_reputation, tracked, take_nonces,
  collect_shares, request_signature_shares, coordinator_sign,
}
use go_frost.Signing.Coordinator.Nonces.{request_signature_shares-once, HandsOut, after_calls}
use go_frost.Signing.Coordinator.Session.{follows, IsListed, coordinator_sign-verify}
use go_frost.Tests.Toy.{f0, f2, f3, f5, toy, suite, F7}
use go_frost.Tests.ToyLaws.{laws}
use go_frost.Tests.Sessions.{
  apart, first, third, message, first-IsHonest, third-IsHonest, group_nonce-ne-zero,
  challenge-ne-zero,
}

abbrev coordinator : Coordinator suite
coordinator = record {
  participants = (1, follows suite f3 2 first) ∷ (3, follows suite f3 2 third) ∷ [];
  min_signers = 2;
  group_public_key = some f3;
  describe = λ e. "error";
}

abbrev idle : CoordinatorState toy
idle = record { reputation_tracker = none; nonces_map = [] }

listed : All (IsListed suite f3 2 coordinator) (third ∷ first ∷ [])
unfolding look_up
listed = (refl, (refl, tt))

nobody_excluded : check_reputation none (3 ∷ 1 ∷ []) ≡ ok tt
unfolding check_reputation
nobody_excluded = refl

coordinator_sign-verify_example :
    (signature : Signature toy) × (su : CoordinatorState toy) × (coordinator_sign suite 0 0
        coordinator
        (3 ∷ 1 ∷ [])
        message
        idle
      ≡ (ok signature, su))
    × (verify suite message signature (some f3) ≡ ok tt)
coordinator_sign-verify_example =
    coordinator_sign-verify suite laws 0 0 f3 (f2 ∷ []) message coordinator idle third (first ∷ [])
      first (third ∷ []) (Permᴰ.swap refl refl) listed nobody_excluded refl
      (first-IsHonest, (third-IsHonest, tt)) (omega arith, tt) (omega arith) (omega arith)
      (apart f3 f0 refl) group_nonce-ne-zero challenge-ne-zero

-- The first participant answers every second round with the share 5, the third with an error.
abbrev answering : Signer suite → Result F7 → Participant toy
answering p answer = record {
  first_round = ok (nonces_of suite p, commitment_of suite p);
  second_round = λ nonces msg cs.
      answer >>= (λ z. ok (record { identifier = p.identifier; signature_share = z }));
}

abbrev failing : Coordinator suite
failing = record {
  participants =
      (1, answering first (ok f5))
      ∷ (3, answering third (fail (sentinel Sentinel.invalid_nonce)))
      ∷ [];
  min_signers = 1;
  group_public_key = some f3;
  describe = λ e. "error";
}

abbrev waiting : CoordinatorState toy
waiting = record {
  reputation_tracker = none;
  nonces_map = (1, nonces_of suite first) ∷ (3, nonces_of suite third) ∷ [];
}

abbrev half : CoordinatorState toy
half = record { reputation_tracker = none; nonces_map = (3, nonces_of suite third) ∷ [] }

abbrev both : CommitmentList toy
both = commitments_of suite (first ∷ third ∷ [])

-- The call fails in the second round of the third participant, whose nonces are gone.
third_fails : request_signature_shares suite 0 0 failing both message waiting ≡ (
  fail (participant_error 3 "failed to generate signature share" (sentinel Sentinel.invalid_nonce)),
  idle,
)
unfolding request_signature_shares validate_commitment_list validate_after collect_shares
    take_nonces tracked look_up erase
third_fails = refl

handed_out-HandsOut : HandsOut suite 0 0 failing both message waiting 3
unfolding validate_commitment_list validate_after collect_shares take_nonces tracked look_up erase
handed_out-HandsOut = record {
  before = commitments_of suite (first ∷ []);
  own = commitment_of suite third;
  rest = [];
  shares = record { identifier = 1; signature_share = f5 } ∷ [];
  reached = half;
  participant = answering third (fail (sentinel Sentinel.invalid_nonce));
  nonces = nonces_of suite third;
  identified = refl;
  listed = refl;
  validated = refl;
  collected_before = refl;
  known = refl;
  present = refl;
}

request_signature_shares-once_example :
    ¬ HandsOut suite 0 0 failing
      (commitments_of suite (third ∷ []))
      (7 ∷ [])
      (after_calls suite 0 0 failing ((both, message) ∷ (both, 8 ∷ []) ∷ []) waiting)
      3
request_signature_shares-once_example =
    request_signature_shares-once suite 0 0 failing both (commitments_of suite (third ∷ [])) message
      (7 ∷ []) waiting ((both, 8 ∷ []) ∷ []) 3 handed_out-HandsOut
