-- ===== src/Security/CommitmentTracker.antt =====
-- pkg/frost/security/commitment_tracker.go. `utf8` gives a string's bytes, `sha256_hex` the digest in
-- hexadecimal, and `sanitize` the error of `SanitizeCommitmentError`, which a global configuration
-- decides. A set of hashes is the list of its members.
pub mod Index
pub mod Expiry
pub mod Reuse
use go_frost.Common.{
  ℕ, ◌+◌, suc, String, Bool, true, false, ltb, if◌then◌else◌, Option, none, some, List, [], ◌∷◌,
  ◌++◌, length, find, put, remove, same_text,
}
use go_frost.Bytes.{Bytes}
use go_frost.Errors.{Result, ok, fail, Error, foreign}
use go_frost.Errors.Actions.{Action}
use go_frost.Security.Reputation.{Time}

-- Without the metadata, which no code reads.
pub record CommitmentIdentifier : Type 0 where
  pub session_id : String
  pub participant_id : String
  pub commitment_data : Bytes
  pub timestamp : Time

pub record CommitmentTracker : Type 0 where
  pub commitments : List (String × CommitmentIdentifier)
  pub session_index : List (String × List String)

-- What the code calls outside the tracker.
pub record Environment : Type 0 where
  pub utf8 : String → Bytes
  pub sha256_hex : Bytes → String
  pub sanitize : String → String → Error → Error

-- `NewInMemoryCommitmentTracker`.
unfoldable pub new_commitment_tracker : CommitmentTracker
new_commitment_tracker = record { commitments = []; session_index = [] }

abbrev pub commitment_reused : Error
commitment_reused = foreign "commitment reused - CRITICAL security violation"

-- Membership in a set of hashes.
unfoldable pub member : String → List String → Bool
member h [] = false
member h (x ∷ xs) = if same_text x h then true else member h xs

-- `set[h] = true`.
unfoldable pub add_member : String → List String → List String
unfolding member
add_member h xs = if member h xs then xs else h ∷ xs

abbrev pub set_or_empty : Option (List String) → List String
set_or_empty none = []
set_or_empty (some xs) = xs

module _ (env : Environment) where
  -- `Hash`.
  unfoldable pub commitment_hash : CommitmentIdentifier → String
  commitment_hash c =
      env.sha256_hex ((env.utf8 c.session_id ++ env.utf8 c.participant_id) ++ c.commitment_data)

  abbrev pub reuse_error : CommitmentIdentifier → Error
  reuse_error c = env.sanitize c.session_id c.participant_id commitment_reused

  abbrev pub record_at :
      Option CommitmentIdentifier
      → String
      → CommitmentIdentifier
      → Action CommitmentTracker (Unit {0})
  record_at (some _) hash c t = (fail (reuse_error c), t)
  record_at none hash c t = (
    ok tt,
    record {
      commitments = put hash c t.commitments;
      session_index =
          put c.session_id (add_member hash (set_or_empty (find c.session_id t.session_index)))
            t.session_index;
    },
  )

  -- `RecordCommitment`.
  unfoldable pub record_commitment : CommitmentIdentifier → Action CommitmentTracker (Unit {0})
  record_commitment c t = record_at (find (commitment_hash c) t.commitments) (commitment_hash c) c t

  abbrev pub check_at : Option CommitmentIdentifier → CommitmentIdentifier → Result (Unit {0})
  check_at (some _) c = fail (reuse_error c)
  check_at none c = ok tt

  -- `CheckCommitment`.
  unfoldable pub check_commitment : CommitmentIdentifier → CommitmentTracker → Result (Unit {0})
  check_commitment c t = check_at (find (commitment_hash c) t.commitments) c

-- `for hash := range hashes { delete(t.commitments, hash) }`.
unfoldable pub remove_all :
    List String → List (String × CommitmentIdentifier) → List (String × CommitmentIdentifier)
remove_all [] m = m
remove_all (h ∷ hs) m = remove_all hs (remove h m)

abbrev pub clear_at : Option (List String) → String → CommitmentTracker → CommitmentTracker
clear_at none session t = t
clear_at (some hashes) session t = record {
  commitments = remove_all hashes t.commitments;
  session_index = remove session t.session_index;
}

-- `ClearSession`; it never fails.
unfoldable pub clear_session : String → CommitmentTracker → CommitmentTracker
clear_session session t = clear_at (find session t.session_index) session t

-- The first loop of `ClearExpired`: the commitments that are left, the sessions of the others, and
-- their number. A time difference is compared after adding the time to the lifetime.
unfoldable pub split_expired :
    Time
    → Time
    → List (String × CommitmentIdentifier)
    → List (String × CommitmentIdentifier) × List String × ℕ
split_expired now ttl [] = ([], [], 0)
split_expired now ttl ((h, c) ∷ rest) =
    let later = split_expired now ttl rest in
    if ltb (c.timestamp + ttl) now
    then (later.0, add_member c.session_id later.1, suc later.2)
    else ((h, c) ∷ later.0, later.1, later.2)

-- The members that are still recorded.
unfoldable pub still_recorded : List (String × CommitmentIdentifier) → List String → List String
still_recorded m [] = []
still_recorded m (h ∷ hs) =
    let rest = still_recorded m hs in elim (find h m) [ none ↦ rest | some _ ↦ h ∷ rest ]

abbrev pub put_or_remove :
    String → List String → List (String × List String) → List (String × List String)
put_or_remove session [] index = remove session index
put_or_remove session (h ∷ hs) index = put session (h ∷ hs) index

-- The second loop of `ClearExpired`.
unfoldable pub update_index :
    List (String × CommitmentIdentifier)
    → List String
    → List (String × List String)
    → List (String × List String)
update_index m [] index = index
update_index m (session ∷ sessions) index =
    update_index m sessions
      (put_or_remove session (still_recorded m (set_or_empty (find session index))) index)

-- `ClearExpired`, with the reading of the clock: the tracker, and the number removed.
unfoldable pub clear_expired : Time → Time → CommitmentTracker → CommitmentTracker × ℕ
clear_expired now ttl t =
    let kept = split_expired now ttl t.commitments in
    (
      record { commitments = kept.0; session_index = update_index kept.0 kept.1 t.session_index },
      kept.2,
    )

-- `Count`.
unfoldable pub count_commitments : CommitmentTracker → ℕ
count_commitments t = length t.commitments

-- `CountSession`.
unfoldable pub count_session : String → CommitmentTracker → ℕ
count_session session t = length (set_or_empty (find session t.session_index))
