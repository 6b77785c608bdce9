-- ===== src/Tests/Reputation.antt =====
-- The theorems about the reputation tracker, applied to recorded timeouts.
use go_frost.Common.{
  ltb, leb, suc, ◌≡◌, refl, true, ◌&&◌, ◌||◌, some, [], ◌∷◌, look_up, insert, arith, ◌≤◌, false,
}
use go_frost.Security.Reputation.{
  Tracker, nonce_reuse, ParticipantReputation, fresh_reputation, reinstated, new_tracker,
  default_config, record_misbehavior, is_excluded, reinstate_participant,
}
use go_frost.Security.Reputation.Exclusion.{
  threshold, violations, known, record_misbehavior-excluded, reinstate_participant-relapse,
}

abbrev start : Tracker
start = new_tracker default_config

record_misbehavior-excluded_example :
    is_excluded 5 (record_misbehavior 10 11 5 nonce_reuse "" start) ≡ (
      is_excluded 5 start
      || (ltb 0 (threshold default_config nonce_reuse)
          && leb
              (threshold default_config nonce_reuse)
              (suc (violations nonce_reuse (known 10 5 start)))))
record_misbehavior-excluded_example = record_misbehavior-excluded 10 11 5 nonce_reuse "" start

-- A participant that is excluded for a nonce reuse.
abbrev caught : ParticipantReputation
caught = record (fresh_reputation 5 10 10) { nonce_reuses = 1; excluded = true; excluded_at = 11 }

abbrev before : Tracker
before = record start { reputations = (5, caught) ∷ [] }

abbrev after : Tracker
after = record start { reputations = (5, reinstated caught) ∷ [] }

reinstated_after : reinstate_participant 5 before ≡ some after
unfolding reinstate_participant look_up insert
reinstated_after = refl

reached : threshold default_config nonce_reuse ≤ suc (violations nonce_reuse (known 20 5 before))
reached = omega arith

reinstate_participant-relapse_example :
    (is_excluded 5 after ≡ false)
    × (is_excluded 5 (record_misbehavior 20 21 5 nonce_reuse "" after) ≡ true)
reinstate_participant-relapse_example =
    reinstate_participant-relapse 20 21 5 nonce_reuse "" before after reinstated_after (omega arith)
      reached
