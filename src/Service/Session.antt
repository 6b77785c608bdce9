-- ===== src/Service/Session.antt =====
-- `signingSession` (pkg/frost/service/session_manager.go). The maps are lists of their entries; the
-- mutex makes each method one step. The service that a session holds is not used by its methods.
pub mod Steps
pub mod Accepted
pub mod Complete
use go_frost.Common.{
  ℕ, ltb, ◌==◌, ◌||◌, if◌then◌else◌, Bool, true, false, String, Option, none, some, List, [], ◌∷◌,
  map, length, look_up, insert,
}
use go_frost.Bytes.{Bytes}
use go_frost.Errors.{
  Result, ok, fail, parameter_error, participant_error, sentinel, Sentinel, ◌>>=◌, ◌>>◌, reject_if,
  accept_if,
}
use go_frost.Group.{Group}
use go_frost.Types.{Identifier, SigningCommitments, SignatureShare, Signature, CommitmentList}
use go_frost.Signing.Package.{insertion_sort}

pub record SigningSession (g : Group) : Type 0 where
  pub id : String
  pub participant_ids : List Identifier
  pub message : Bytes
  pub commitments : List (Identifier × SigningCommitments g)
  pub signature_shares : List (Identifier × SignatureShare g)
  pub final_signature : Signature g
  pub is_complete : Bool
  pub is_canceled : Bool
  pub min_participants : ℕ

-- The search for an identifier.
unfoldable pub expected : Identifier → List Identifier → Bool
expected id [] = false
expected id (x ∷ xs) = x == id || expected id xs

-- `_, exists := m[id]`.
unfoldable pub exists : {A : Type 0} → Option A → Bool
exists none = false
exists (some _) = true

module _ (g : Group) where
  -- `newSigningSession`.
  unfoldable pub new_signing_session : String → List Identifier → Bytes → SigningSession g
  new_signing_session id ids message = record {
    id = id;
    participant_ids = ids;
    message = message;
    commitments = [];
    signature_shares = [];
    final_signature = record { r = none; z = none };
    is_complete = false;
    is_canceled = false;
    min_participants = length ids;
  }

  -- The two checks with which both methods that add begin.
  unfoldable pub check_open : SigningSession g → Result (Unit {0})
  check_open s = do
    reject_if s.is_canceled
        (parameter_error "session" "session is canceled" (sentinel Sentinel.invalid_parameters))
    reject_if s.is_complete (
        parameter_error "session" "session is already complete"
          (sentinel Sentinel.invalid_parameters))

  -- `AddCommitment`: the session after the call, unless it fails, which changes nothing.
  unfoldable pub add_commitment :
      SigningCommitments g → SigningSession g → Result (SigningSession g)
  unfolding expected exists
  add_commitment c s = do
    check_open s
    accept_if (expected c.identifier s.participant_ids) (
        participant_error c.identifier "not in participant list"
          (sentinel Sentinel.invalid_participant))
    reject_if (exists (look_up c.identifier s.commitments)) (
        participant_error c.identifier "commitment already added"
          (sentinel Sentinel.duplicate_participant))
    ok (record s { commitments = insert c.identifier c s.commitments })

  -- `GetCommitmentList`. `sort.Slice` is an insertion sort here: where no identifier stands twice,
  -- there is only one sorted order.
  unfoldable pub get_commitment_list : SigningSession g → Result (CommitmentList g)
  get_commitment_list s = do
    reject_if s.is_canceled
        (parameter_error "session" "session is canceled" (sentinel Sentinel.invalid_parameters))
    reject_if (ltb (length s.commitments) s.min_participants) (
        parameter_error "commitments" "insufficient commitments"
          (sentinel Sentinel.insufficient_participants))
    ok (insertion_sort g [] (map (λ e. e.1) s.commitments))

  -- `AddSignatureShare`.
  unfoldable pub add_signature_share :
      SignatureShare g → SigningSession g → Result (SigningSession g)
  unfolding expected exists
  add_signature_share share s = do
    check_open s
    accept_if (expected share.identifier s.participant_ids) (
        participant_error share.identifier "not in participant list"
          (sentinel Sentinel.invalid_participant))
    reject_if (exists (look_up share.identifier s.signature_shares)) (
        participant_error share.identifier "signature share already added"
          (sentinel Sentinel.duplicate_participant))
    ok (record s { signature_shares = insert share.identifier share s.signature_shares })

  -- The end of `GetSignature`, where the session is not complete.
  unfoldable pub aggregate_session : SigningSession g → Result (Signature g)
  aggregate_session s = do
    reject_if (ltb (length s.signature_shares) s.min_participants) (
        parameter_error "signatureShares" "insufficient signature shares"
          (sentinel Sentinel.insufficient_participants))
    fail (
        parameter_error "session" "session-based aggregation requires group public key context"
          (sentinel Sentinel.invalid_configuration))

  -- `GetSignature`.
  unfoldable pub get_signature : SigningSession g → Result (Signature g)
  get_signature s = do
    reject_if s.is_canceled
        (parameter_error "session" "session is canceled" (sentinel Sentinel.invalid_parameters))
    if s.is_complete then ok s.final_signature else aggregate_session s

  -- `Cancel`.
  unfoldable pub cancel : SigningSession g → Result (SigningSession g)
  cancel s = do
    reject_if s.is_complete (
        parameter_error "session" "cannot cancel completed session"
          (sentinel Sentinel.invalid_parameters))
    ok (record s { is_canceled = true })
