-- ===== src/Security/Reputation.antt =====
-- pkg/frost/security/reputation.go. A call's readings of the clock are arguments, in nanoseconds,
-- with 0 for the zero time. A threshold that is not positive is 0, which switches it off; counts
-- stay far below the range of Go's int.
pub mod Exclusion
use go_frost.Common.{
  ℕ, suc, ◌+◌, ◌-◌, leb, ltb, ◌&&◌, Bool, true, false, String, if◌then◌else◌, Option, none, some,
  List, [], ◌∷◌, ◌++◌, length, look_up, insert,
}
use go_frost.Types.{Identifier}

abbrev pub Time : Type 0
Time = ℕ

-- The constants of `MisbehaviorType`, a string type, and any other string.
pub data MisbehaviorType : Type 0 where
  authentication_failure invalid_share timeout nonce_reuse invalid_commitment : MisbehaviorType
  other : String → MisbehaviorType

pub record MisbehaviorRecord : Type 0 where
  pub participant_id : Identifier
  pub misbehavior : MisbehaviorType
  pub timestamp : Time
  pub details : String

pub record ParticipantReputation : Type 0 where
  pub participant_id : Identifier
  pub authentication_failures : ℕ
  pub invalid_shares : ℕ
  pub timeouts : ℕ
  pub nonce_reuses : ℕ
  pub invalid_commitments : ℕ
  pub first_seen : Time
  pub last_seen : Time
  pub excluded : Bool
  pub excluded_at : Time
  pub exclusion_reason : String

pub record ReputationConfig : Type 0 where
  pub max_authentication_failures : ℕ
  pub max_invalid_shares : ℕ
  pub max_timeouts : ℕ
  pub max_nonce_reuses : ℕ
  pub max_invalid_commitments : ℕ

pub record Tracker : Type 0 where
  pub config : ReputationConfig
  pub reputations : List (Identifier × ParticipantReputation)
  pub history : List (Identifier × List MisbehaviorRecord)

-- `DefaultReputationConfig`, without the retention, which no code reads.
abbrev pub default_config : ReputationConfig
default_config = record {
  max_authentication_failures = 3;
  max_invalid_shares = 2;
  max_timeouts = 5;
  max_nonce_reuses = 1;
  max_invalid_commitments = 3;
}

-- `NewInMemoryReputationTracker`.
abbrev pub new_tracker : ReputationConfig → Tracker
new_tracker config = record { config = config; reputations = []; history = [] }

-- `TotalViolations`.
unfoldable pub total_violations : ParticipantReputation → ℕ
total_violations r =
    r.authentication_failures + r.invalid_shares + r.timeouts + r.nonce_reuses
    + r.invalid_commitments

-- A reputation with the given times and nothing recorded.
abbrev pub fresh_reputation : Identifier → Time → Time → ParticipantReputation
fresh_reputation id first last = record {
  participant_id = id;
  authentication_failures = 0;
  invalid_shares = 0;
  timeouts = 0;
  nonce_reuses = 0;
  invalid_commitments = 0;
  first_seen = first;
  last_seen = last;
  excluded = false;
  excluded_at = 0;
  exclusion_reason = "";
}

-- `excludeParticipantLocked`, on the record: an excluded participant stays as it is.
unfoldable pub exclude : Time → String → ParticipantReputation → ParticipantReputation
exclude now reason r =
    if r.excluded
    then r
    else record r { excluded = true; excluded_at = now; exclusion_reason = reason }

-- `if max > 0 && count >= max { exclude }`.
unfoldable pub exclude_at : ℕ → ℕ → Time → String → ParticipantReputation → ParticipantReputation
unfolding exclude
exclude_at max count now reason r = if ltb 0 max && leb max count then exclude now reason r else r

-- The switch of `RecordMisbehavior`.
unfoldable pub count_violation :
    ReputationConfig → Time → MisbehaviorType → ParticipantReputation → ParticipantReputation
count_violation c now authentication_failure r =
    exclude_at c.max_authentication_failures (suc r.authentication_failures) now
      "exceeded authentication failure threshold"
      (record r { authentication_failures = suc r.authentication_failures })
count_violation c now invalid_share r =
    exclude_at c.max_invalid_shares (suc r.invalid_shares) now "exceeded invalid share threshold"
      (record r { invalid_shares = suc r.invalid_shares })
count_violation c now timeout r =
    exclude_at c.max_timeouts (suc r.timeouts) now "exceeded timeout threshold"
      (record r { timeouts = suc r.timeouts })
count_violation c now nonce_reuse r =
    exclude_at c.max_nonce_reuses (suc r.nonce_reuses) now "exceeded nonce reuse threshold"
      (record r { nonce_reuses = suc r.nonce_reuses })
count_violation c now invalid_commitment r =
    exclude_at c.max_invalid_commitments (suc r.invalid_commitments) now
      "exceeded invalid commitment threshold"
      (record r { invalid_commitments = suc r.invalid_commitments })
count_violation c now (other _) r = r

abbrev pub or_default {ℓ} : {A : Type ℓ} → A → Option A → A
or_default d none = d
or_default d (some a) = a

-- `RecordMisbehavior`, with the reading at its start and the one at an exclusion. It never fails.
unfoldable pub record_misbehavior :
    Time → Time → Identifier → MisbehaviorType → String → Tracker → Tracker
record_misbehavior now later id misbehavior details t =
    let r = or_default (fresh_reputation id now 0) (look_up id t.reputations) in
    let counted = count_violation t.config later misbehavior (record r { last_seen = now }) in
    let entry : MisbehaviorRecord = record {
      participant_id = id;
      misbehavior = misbehavior;
      timestamp = now;
      details = details;
    } in
    record t {
      reputations = insert id counted t.reputations;
      history = insert id (or_default [] (look_up id t.history) ++ (entry ∷ [])) t.history;
    }

-- `GetReputation`: none is `ErrParticipantNotFound`.
unfoldable pub get_reputation : Identifier → Tracker → Option ParticipantReputation
get_reputation id t = look_up id t.reputations

abbrev is_out : Option ParticipantReputation → Bool
is_out none = false
is_out (some r) = r.excluded

-- `IsExcluded`.
unfoldable pub is_excluded : Identifier → Tracker → Bool
is_excluded id t = is_out (look_up id t.reputations)

-- `ExcludeParticipant`, with the readings for a new record and for the exclusion.
unfoldable pub exclude_participant : Time → Time → Identifier → String → Tracker → Tracker
exclude_participant now later id reason t = record t {
  reputations =
      insert id
        (exclude later reason (or_default (fresh_reputation id now now) (look_up id t.reputations)))
        t.reputations;
}

-- The record after `ReinstateParticipant`: the counts stay.
abbrev pub reinstated : ParticipantReputation → ParticipantReputation
reinstated r = record r { excluded = false; excluded_at = 0; exclusion_reason = "" }

-- `ReinstateParticipant`: none is `ErrParticipantNotFound`.
unfoldable pub reinstate_participant : Identifier → Tracker → Option Tracker
reinstate_participant id t = elim (look_up id t.reputations) [
  | none ↦ none
  | some r ↦ some (record t { reputations = insert id (reinstated r) t.reputations })
]

unfoldable pub drop : ℕ → List MisbehaviorRecord → List MisbehaviorRecord
drop ℕ.zero rs = rs
drop (suc n) [] = []
drop (suc n) (r ∷ rs) = drop n rs

-- `GetMisbehaviorHistory`: the last `limit` records, or all for the limit 0, which stands for every
-- limit that is not positive.
unfoldable pub get_misbehavior_history : Identifier → ℕ → Tracker → Option (List MisbehaviorRecord)
get_misbehavior_history id limit t = elim (look_up id t.history) [
  | none ↦ none
  | some rs ↦
      some (if ltb 0 limit && ltb limit (length rs) then drop (length rs - limit) rs else rs)
]

-- The records after the cutoff, `now - maxAge`, and the number of the others.
unfoldable pub keep_recent : Time → ℕ → List MisbehaviorRecord → List MisbehaviorRecord × ℕ
keep_recent now max_age [] = ([], 0)
keep_recent now max_age (r ∷ rs) =
    let rest = keep_recent now max_age rs in
    if ltb now (r.timestamp + max_age) then (r ∷ rest.0, rest.1) else (rest.0, suc rest.1)

-- The loop of `CleanupOldRecords` over the history.
unfoldable pub cleanup_loop :
    Time
    → ℕ
    → List (Identifier × List MisbehaviorRecord)
    → List (Identifier × List MisbehaviorRecord) × ℕ
cleanup_loop now max_age [] = ([], 0)
cleanup_loop now max_age ((id, rs) ∷ rest) =
    let kept = keep_recent now max_age rs in
    let others = cleanup_loop now max_age rest in
    elim kept.0 [
      | [] ↦ (others.0, kept.1 + others.1)
      | _ ∷ _ ↦ ((id, kept.0) ∷ others.0, kept.1 + others.1)
    ]

-- `CleanupOldRecords`: the tracker, and the number of records removed.
unfoldable pub cleanup_old_records : Time → ℕ → Tracker → Tracker × ℕ
cleanup_old_records now max_age t =
    let cleaned = cleanup_loop now max_age t.history in
    if ltb 0 max_age then (record t { history = cleaned.0 }, cleaned.1) else (t, 0)
