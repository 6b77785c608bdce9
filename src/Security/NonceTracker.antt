-- ===== src/Security/NonceTracker.antt =====
-- pkg/frost/security/frost_nonce_tracker.go, over the tracker in memory. `label` is `fmt.Sprintf` of a
-- participant and a kind, `annotate` the `fmt.Errorf` around an error of the tracker. The metadata are
-- left out.
pub mod Rollback
use go_frost.Common.{ℕ, String, Option, List}
use go_frost.Bytes.{Bytes}
use go_frost.Errors.{Result, panic, ok, fail, Error, deref, wrap}
use go_frost.Errors.{◌>>=◌ as then}
use go_frost.Errors.Actions.{Action, pure, lift, ◌>>=◌, ◌>>◌}
use go_frost.Group.{Group}
use go_frost.Types.{Identifier, SigningCommitments}
use go_frost.Security.Reputation.{Time}
use go_frost.Security.CommitmentTracker.{
  CommitmentIdentifier, CommitmentTracker, Environment, record_commitment, check_commitment,
  clear_session, clear_expired, count_commitments, count_session,
}

pub record NonceEnvironment : Type 0 where
  pub tracker : Environment
  pub label : Identifier → String → String
  pub annotate : String → String → Identifier → Error → Error

module _ (g : Group) (env : NonceEnvironment) where
  -- The record for one of the two commitments of a participant.
  unfoldable pub commitment_for :
      String → Identifier → String → Time → g.Element → CommitmentIdentifier
  commitment_for session id kind now element = record {
    session_id = session;
    participant_id = env.label id kind;
    commitment_data = g.element_bytes element;
    timestamp = now;
  }

  -- `ClearParticipant`.
  unfoldable pub clear_participant : String → Identifier → Action CommitmentTracker (Unit {0})
  clear_participant session id = pure tt

  abbrev pub or_report :
      Action CommitmentTracker (Unit {0})
      → (Error → Error)
      → Result (Unit {0}) × CommitmentTracker
      → Result (Unit {0}) × CommitmentTracker
  or_report cleanup report (ok _, t) = (ok tt, t)
  or_report cleanup report (fail e, t) = (fail (report e), (cleanup t).1)
  or_report cleanup report (panic, t) = (panic, t)

  -- `if err := t.tracker.RecordCommitment(...); err != nil { cleanup; return fmt.Errorf(...) }`.
  unfoldable pub record_or :
      Action CommitmentTracker (Unit {0})
      → (Error → Error)
      → CommitmentIdentifier
      → Action CommitmentTracker (Unit {0})
  record_or cleanup report c t = or_report cleanup report (record_commitment env.tracker c t)

  -- The second half of `RecordSigningCommitments`.
  unfoldable pub record_binding :
      Time → String → Identifier → SigningCommitments g → Action CommitmentTracker (Unit {0})
  record_binding now session id c = do
    binding ← lift (deref c.binding_nonce_commitment)
    record_or (clear_participant session id)
        (env.annotate "binding commitment recording failed" session id)
        (commitment_for session id "binding" now binding)

  -- `RecordSigningCommitments`.
  unfoldable pub record_signing_commitments :
      Time → String → Identifier → SigningCommitments g → Action CommitmentTracker (Unit {0})
  record_signing_commitments now session id c = do
    hiding ← lift (deref c.hiding_nonce_commitment)
    record_or (pure tt) (env.annotate "hiding commitment recording failed" session id)
        (commitment_for session id "hiding" now hiding)
    record_binding now session id c

  -- `CheckSigningCommitments`, with the two readings of the clock.
  unfoldable pub check_signing_commitments :
      Time
      → Time
      → String
      → Identifier
      → SigningCommitments g
      → CommitmentTracker
      → Result (Unit {0})
  check_signing_commitments now later session id c t =
      then (deref c.hiding_nonce_commitment) (λ hiding.
        then
          (wrap (env.annotate "hiding commitment check failed" session id)
            (check_commitment env.tracker (commitment_for session id "hiding" now hiding) t))
          (λ _. then (deref c.binding_nonce_commitment) (λ binding.
            wrap (env.annotate "binding commitment check failed" session id) (
              check_commitment env.tracker (commitment_for session id "binding" later binding) t))))
