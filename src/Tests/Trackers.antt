-- ===== src/Tests/Trackers.antt =====
-- The trackers of commitments, with a digest that is one of two strings.
use go_frost.Common.{
  ◌≡◌, ◌≢◌, refl, some, [], ◌∷◌, String, find, put, remove, same_text, ap, Unique, ℕ, if◌then◌else◌,
  ◌==◌, true, false, subst, sym,
}
use go_frost.Bytes.{Bytes}
use go_frost.Errors.{ok, fail}
use go_frost.Types.{SigningCommitments}
use go_frost.Security.CommitmentTracker.{
  CommitmentIdentifier, CommitmentTracker, Environment, new_commitment_tracker, member, add_member,
  commitment_hash, record_commitment, check_commitment, clear_session, commitment_reused,
}
use go_frost.Security.CommitmentTracker.Index.{IsIndexed}
use go_frost.Security.CommitmentTracker.Reuse.{
  Reached, Later, Reached-IsIndexed, record_commitment-refused,
}
use go_frost.Security.NonceTracker.{
  NonceEnvironment, commitment_for, clear_participant, record_or, record_binding,
  record_signing_commitments,
}
use go_frost.Security.NonceTracker.Rollback.{record_signing_commitments-kept}
use go_frost.Tests.Toy.{f1, toy}

abbrev first_byte : Bytes → ℕ
first_byte [] = 0
first_byte (b ∷ bs) = b

-- The first byte decides the digest; a session's name gives no byte.
abbrev environment : Environment
environment = record {
  utf8 = λ s. [];
  sha256_hex = λ bs. if first_byte bs == 1 then "01" else "02";
  sanitize = λ session participant e. e;
}

abbrev sample : CommitmentIdentifier
sample = record { session_id = "a"; participant_id = "1"; commitment_data = 1 ∷ []; timestamp = 5 }

abbrev later_sample : CommitmentIdentifier
later_sample = record {
  session_id = "b";
  participant_id = "1";
  commitment_data = 1 ∷ [];
  timestamp = 9;
}

abbrev one_recorded : CommitmentTracker
one_recorded = record { commitments = ("01", sample) ∷ []; session_index = ("a", "01" ∷ []) ∷ [] }

recorded_once : record_commitment environment sample new_commitment_tracker ≡ (ok tt, one_recorded)
unfolding record_commitment new_commitment_tracker commitment_hash find put remove add_member member
recorded_once = refl

one_recorded-Reached : Reached environment one_recorded
one_recorded-Reached =
    subst (Reached environment) (ap (λ p. p.1) recorded_once)
      (Reached.recorded sample Reached.start)

Reached-IsIndexed_example : Unique one_recorded.commitments × IsIndexed one_recorded
Reached-IsIndexed_example = Reached-IsIndexed environment one_recorded one_recorded-Reached

same_digest : commitment_hash environment later_sample ≡ commitment_hash environment sample
unfolding commitment_hash
same_digest = refl

-- Another session is cleared in between.
other_cleared : Later environment "a" one_recorded one_recorded
unfolding clear_session find
other_cleared = Later.cleared "b" (λ e. names_differ e) (Later.now one_recorded)
  where
    names_differ : ◌≢◌ {A = String} "a" "b"
    names_differ e = let q : false ≡ true = ap (same_text "a") (sym e) in cc q

record_commitment-refused_example :
    (check_commitment environment later_sample one_recorded ≡ fail commitment_reused)
    × (record_commitment environment later_sample one_recorded
        ≡ (fail commitment_reused, one_recorded))
record_commitment-refused_example =
    record_commitment-refused environment sample later_sample new_commitment_tracker one_recorded
      one_recorded Reached.start recorded_once other_cleared same_digest

abbrev nonce_environment : NonceEnvironment
nonce_environment = record {
  tracker = environment;
  label = λ id kind. kind;
  annotate = λ text session id e. e;
}

-- Both commitments are the same element, so that the second is refused.
abbrev twice : SigningCommitments toy
twice = record {
  identifier = 1;
  hiding_nonce_commitment = some f1;
  binding_nonce_commitment = some f1;
}

abbrev hiding_only : CommitmentTracker
hiding_only = record {
  commitments = ("01", commitment_for toy nonce_environment "a" 1 "hiding" 5 f1) ∷ [];
  session_index = ("a", "01" ∷ []) ∷ [];
}

hiding_unknown :
    check_commitment environment
      (commitment_for toy nonce_environment "a" 1 "hiding" 5 f1)
      new_commitment_tracker
    ≡ ok tt
unfolding check_commitment new_commitment_tracker find
hiding_unknown = refl

failed_half :
    record_signing_commitments toy nonce_environment 5 "a" 1 twice new_commitment_tracker
    ≡ (fail commitment_reused, hiding_only)
unfolding record_signing_commitments record_binding record_or record_commitment
    new_commitment_tracker commitment_for commitment_hash find put remove add_member member
    clear_participant
failed_half = refl

record_signing_commitments-kept_example :
    check_commitment environment
      (commitment_for toy nonce_environment "a" 1 "hiding" 5 f1)
      hiding_only
    ≡ fail commitment_reused
record_signing_commitments-kept_example =
    record_signing_commitments-kept toy nonce_environment 5 "a" 1 twice f1 new_commitment_tracker
      hiding_only commitment_reused refl hiding_unknown failed_half
