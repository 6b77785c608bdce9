-- ===== src/Signing/Coordinator.antt =====
-- pkg/frost/signing/coordinator.go. A coordinator's participants answer as the interface
-- `Participant` allows; its mutex makes each change of the nonces one step. A call's readings of the
-- clock are arguments, `describe` is `Error()`, and the tracker is the one of
-- security/reputation.go, whose `IsExcluded` has no error.
pub mod Steps
pub mod Nonces
pub mod Session
use go_frost.Common.{
  ℕ, String, Bool, true, false, Option, none, some, List, [], ◌∷◌, look_up, insert, erase,
}
use go_frost.Bytes.{Bytes}
use go_frost.Encoding.{validate_commitment_list}
use go_frost.Errors.{
  Result, panic, fail, ok, Error, parameter_error, participant_error, sentinel, Sentinel, foreign,
  reject_if, require,
}
use go_frost.Errors.Actions.{Action, pure, lift, modify, ◌>>=◌, ◌>>◌}
use go_frost.Group.{Group, Suite}
use go_frost.Types.{
  Identifier, SigningCommitments, SigningNonces, SignatureShare, Signature, CommitmentList,
}
use go_frost.Security.Reputation.{Time, Tracker, MisbehaviorType, record_misbehavior, is_excluded}
use go_frost.Signing.Aggregator.{aggregate}
use go_frost.Signing.Package.{insertion_sort}

-- The rounds of a participant in one session.
pub record Participant (g : Group) : Type 0 where
  pub first_round : Result (SigningNonces g × SigningCommitments g)
  pub second_round : SigningNonces g → Bytes → CommitmentList g → Result (SignatureShare g)

-- What a coordinator does not change, with the threshold of its aggregator.
pub record Coordinator (s : Suite) : Type 0 where
  pub participants : List (Identifier × Participant s.group)
  pub min_signers : ℕ
  pub group_public_key : Option s.Element
  pub describe : Error → String

-- What it changes. Without a tracker nothing is recorded and nobody is excluded.
pub record CoordinatorState (g : Group) : Type 0 where
  pub reputation_tracker : Option Tracker
  pub nonces_map : List (Identifier × SigningNonces g)

unfoldable pub participant_excluded : Error
participant_excluded = foreign "participant is excluded due to misbehavior"

-- The loop that asks the tracker.
unfoldable pub check_reputation : Option Tracker → List Identifier → Result (Unit {0})
check_reputation none ids = ok tt
check_reputation (some t) [] = ok tt
check_reputation (some t) (id ∷ ids) =
    let rest = check_reputation (some t) ids in
    elim (is_excluded id t) [
      | true ↦ fail (participant_error id "participant is excluded" participant_excluded)
      | false ↦ rest
    ]

module _ (s : Suite) (now later : Time) where
  abbrev Method : Type 0 → Type 0
  Method A = Action (CoordinatorState s.group) A

  abbrev recorded : Identifier → MisbehaviorType → String → Option Tracker → Option Tracker
  recorded id misbehavior details none = none
  recorded id misbehavior details (some t) =
      some (record_misbehavior now later id misbehavior details t)

  -- `if err != nil`: the misbehavior is recorded and the error wrapped. A panic ends the call.
  unfoldable pub tracked :
      {A : Type 0} → Coordinator s → Identifier → MisbehaviorType → String → Result A → Method A
  tracked c id misbehavior text (ok a) st = (ok a, st)
  tracked c id misbehavior text panic st = (panic, st)
  tracked c id misbehavior text (fail e) st = (
    fail (participant_error id text e),
    record st { reputation_tracker = recorded id misbehavior (c.describe e) st.reputation_tracker },
  )

  -- The loop over the participants of the first round.
  unfoldable pub collect_commitments :
      Coordinator s → List Identifier → Method (CommitmentList s.group)
  collect_commitments c [] = pure []
  collect_commitments c (id ∷ ids) = do
    participant ← lift (require (look_up id c.participants) (sentinel Sentinel.invalid_participant))
    answer ←
        tracked c id MisbehaviorType.invalid_commitment "failed to generate commitment"
          participant.first_round
    modify (λ st. record st { nonces_map = insert id answer.0 st.nonces_map })
    rest ← collect_commitments c ids
    pure (answer.1 ∷ rest)

  abbrev no_participants : List Identifier → Bool
  no_participants [] = true
  no_participants (_ ∷ _) = false

  -- `RequestCommitments`; it does not use the message.
  unfoldable pub request_commitments :
      Coordinator s → List Identifier → Method (CommitmentList s.group)
  request_commitments c ids = do
    lift (reject_if (no_participants ids) (sentinel Sentinel.insufficient_participants))
    (λ st. (check_reputation st.reputation_tracker ids, st))
    modify (λ st. record st { nonces_map = [] })
    commitments ← collect_commitments c ids
    let sorted = insertion_sort s.group [] commitments
    lift (validate_commitment_list s.group sorted)
    pure sorted

  abbrev pub taken : Identifier → Option (SigningNonces s.group) → Method (SigningNonces s.group)
  taken id none st = (
    fail (
        participant_error id "nonces not found - RequestCommitments must be called first"
          (sentinel Sentinel.invalid_nonce)),
    st,
  )
  taken id (some nonces) st = (ok nonces, record st { nonces_map = erase id st.nonces_map })

  -- The nonces of a participant are taken out of the map. Their copy is zeroized after its use.
  unfoldable pub take_nonces : Identifier → Method (SigningNonces s.group)
  take_nonces id st = taken id (look_up id st.nonces_map) st

  -- The loop over the commitments of the second round.
  unfoldable pub collect_shares :
      Coordinator s
      → Bytes
      → CommitmentList s.group
      → CommitmentList s.group
      → Method (List (SignatureShare s.group))
  collect_shares c msg all [] = pure []
  collect_shares c msg all (m ∷ ms) = do
    participant ← lift (
        require (look_up m.identifier c.participants) (
          participant_error m.identifier "not found in participant map"
            (sentinel Sentinel.invalid_participant)))
    nonces ← take_nonces m.identifier
    share ←
        tracked c m.identifier MisbehaviorType.invalid_share "failed to generate signature share"
          (participant.second_round nonces msg all)
    shares ← collect_shares c msg all ms
    pure (share ∷ shares)

  -- `RequestSignatureShares`.
  unfoldable pub request_signature_shares :
      Coordinator s → CommitmentList s.group → Bytes → Method (List (SignatureShare s.group))
  request_signature_shares c cs msg = do
    lift (validate_commitment_list s.group cs)
    collect_shares c msg cs cs

  -- `Sign`.
  unfoldable pub coordinator_sign :
      Coordinator s → List Identifier → Bytes → Method (Signature s.group)
  coordinator_sign c ids msg = do
    key ← lift (
        require c.group_public_key (
          parameter_error "groupPublicKey" "must be set before signing"
            (sentinel Sentinel.invalid_parameters)))
    cs ← request_commitments c ids
    shares ← request_signature_shares c cs msg
    lift (aggregate s c.min_signers (some key) cs msg shares)
