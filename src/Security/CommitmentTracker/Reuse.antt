-- ===== src/Security/CommitmentTracker/Reuse.antt =====
-- What the tracker's states have in common, and that a recorded commitment is refused.
use go_frost.Common.{
  ◌≡◌, ◌≢◌, refl, sym, ap, ◌∙◌, inl, inr, String, Bool-cases, none, some, Option-cases, List, [],
  ◌∷◌, find, remove, find-put, find-put_other, subst, Unique, remove-Unique, put-Unique,
}
use go_frost.Errors.{ok, fail}
use go_frost.Errors.Actions.{never_ok}
use go_frost.Security.Reputation.{Time}
use go_frost.Security.CommitmentTracker.{
  CommitmentIdentifier, CommitmentTracker, Environment, new_commitment_tracker, member,
  commitment_hash, reuse_error, record_at, record_commitment, check_commitment, remove_all,
  clear_session, clear_expired,
}
use go_frost.Security.CommitmentTracker.Index.{
  IsIndexed, own_session, find-remove_all_other, clear_session-IsIndexed,
  record_commitment-IsIndexed,
}
use go_frost.Security.CommitmentTracker.Expiry.{split-Unique, clear_expired-IsIndexed}

remove_all-Unique :
    (hs : List String) (m : List (String × CommitmentIdentifier))
    → Unique m
    → Unique (remove_all hs m)
unfolding remove_all
remove_all-Unique [] m u = u
remove_all-Unique (h ∷ hs) m u = remove_all-Unique hs (remove h m) (remove-Unique h m u)

clear_session-Unique :
    (session : String) (t : CommitmentTracker)
    → Unique t.commitments
    → Unique (clear_session session t).commitments
unfolding clear_session
clear_session-Unique session t u = elim (Option-cases (find session t.session_index)) [
  | inl e ↦ rw e u
  | inr (hs, e) ↦ rw e (remove_all-Unique hs t.commitments u)
]

module _ (env : Environment) where
  record_commitment-Unique :
      (c : CommitmentIdentifier) (t : CommitmentTracker)
      → Unique t.commitments
      → Unique (record_commitment env c t).1.commitments
  unfolding record_commitment
  record_commitment-Unique c t u =
      elim (Option-cases (find (commitment_hash env c) t.commitments)) [
        | inl e ↦ rw e (put-Unique (commitment_hash env c) c t.commitments u)
        | inr (d, e) ↦ rw e u
      ]

  -- The states of a tracker under any calls of its methods.
  pub data Reached : CommitmentTracker → Type 0 where
    start : Reached new_commitment_tracker
    recorded :
        {t : CommitmentTracker} (c : CommitmentIdentifier)
        → Reached t
        → Reached (record_commitment env c t).1
    cleared :
        {t : CommitmentTracker} (session : String) → Reached t → Reached (clear_session session t)
    expired :
        {t : CommitmentTracker} (now ttl : Time) → Reached t → Reached (clear_expired now ttl t).0

  -- In every state that the tracker reaches, no hash stands twice, every recorded commitment's hash
  -- is in the set of its session, and every hash in a session's set is that of a recorded
  -- commitment of the session.
  pub Reached-IsIndexed : (t : CommitmentTracker) → Reached t → Unique t.commitments × IsIndexed t
  unfolding new_commitment_tracker find clear_expired
  Reached-IsIndexed t Reached.start =
      (tt, record { listed = λ h c f. cc f; recorded = λ s h hs f m. cc f })
  Reached-IsIndexed t (Reached.recorded {t = s} c r) =
      let (u, i) = Reached-IsIndexed s r in
      (record_commitment-Unique c s u, record_commitment-IsIndexed env c s i)
  Reached-IsIndexed t (Reached.cleared {t = s} session r) =
      let (u, i) = Reached-IsIndexed s r in
      (clear_session-Unique session s u, clear_session-IsIndexed session s i)
  Reached-IsIndexed t (Reached.expired {t = s} now ttl r) =
      let (u, i) = Reached-IsIndexed s r in
      (split-Unique now ttl s.commitments u, clear_expired-IsIndexed now ttl s u i)

  -- Calls of `RecordCommitment`, and of `ClearSession` for other sessions.
  pub data Later (session : String) : CommitmentTracker → CommitmentTracker → Type 0 where
    now : (t : CommitmentTracker) → Later session t t
    recorded :
        {t u : CommitmentTracker} (c : CommitmentIdentifier)
        → Later session (record_commitment env c t).1 u
        → Later session t u
    cleared :
        {t u : CommitmentTracker} (other : String)
        → session ≢ other
        → Later session (clear_session other t) u
        → Later session t u

  pub record-keeps :
      (h : String) (c d : CommitmentIdentifier) (t : CommitmentTracker)
      → find h t.commitments ≡ some c
      → find h (record_commitment env d t).1.commitments ≡ some c
  unfolding record_commitment
  record-keeps h c d t f = elim (Option-cases (find (commitment_hash env d) t.commitments)) [
    | inl e ↦ rw e (
        find-put_other (commitment_hash env d) h d t.commitments
          (λ q. let k = ap (λ x. find x t.commitments) q in cc (e, k, f))
        ∙ f)
    | inr (x, e) ↦ rw e f
  ]

  clear-keeps :
      (h session : String) (c : CommitmentIdentifier) (t : CommitmentTracker)
      → IsIndexed t
      → c.session_id ≢ session
      → find h t.commitments ≡ some c
      → find h (clear_session session t).commitments ≡ some c
  unfolding clear_session
  clear-keeps h session c t i n f = elim (Option-cases (find session t.session_index)) [
    | inl e ↦ rw e f
    | inr (hs, e) ↦ rw e (elim (Bool-cases (member h hs)) [
      | inl m ↦ absurd (n (own_session session h t hs c i e f m))
      | inr m ↦ find-remove_all_other hs h t.commitments m ∙ f
    ])
  ]

  later-keeps :
      (h : String) (c : CommitmentIdentifier) (t u : CommitmentTracker)
      → Reached t
      → Later c.session_id t u
      → find h t.commitments ≡ some c
      → find h u.commitments ≡ some c
  later-keeps h c t u r (Later.now _) f = f
  later-keeps h c t u r (Later.recorded d later) f =
      later-keeps h c _ u (Reached.recorded d r) later (record-keeps h c d t f)
  later-keeps h c t u r (Later.cleared session n later) f =
      later-keeps h c _ u (Reached.cleared session r) later
        (clear-keeps h session c t (Reached-IsIndexed t r).1 n f)

  pub record-find :
      (c : CommitmentIdentifier) (t u : CommitmentTracker)
      → record_commitment env c t ≡ (ok tt, u)
      → find (commitment_hash env c) u.commitments ≡ some c
  unfolding record_commitment
  record-find c t u h = elim (Option-cases (find (commitment_hash env c) t.commitments)) [
    | inl e ↦
        let k : (record_at env none (commitment_hash env c) c t).1 ≡ u =
          ap (λ p. p.1) (rw e at h) in
        ap (λ (x : CommitmentTracker). find (commitment_hash env c) x.commitments) (sym k)
        ∙ find-put (commitment_hash env c) c t.commitments
    | inr (d, e) ↦ absurd (never_ok (λ q. cc q) (rw e at h))
  ]

  -- After `RecordCommitment` has accepted a commitment, both `CheckCommitment` and
  -- `RecordCommitment` refuse every commitment with its hash, whatever is recorded and whichever
  -- other sessions are cleared in between; the refused call changes nothing.
  pub record_commitment-refused :
      (c d : CommitmentIdentifier) (t u v : CommitmentTracker)
      → Reached t
      → record_commitment env c t ≡ (ok tt, u)
      → Later c.session_id u v
      → commitment_hash env d ≡ commitment_hash env c
      → (check_commitment env d v ≡ fail (reuse_error env d))
        × (record_commitment env d v ≡ (fail (reuse_error env d), v))
  unfolding check_commitment record_commitment
  record_commitment-refused c d t u v r h later e =
      let reached : Reached u = subst Reached (ap (λ p. p.1) h) (Reached.recorded c r) in
      let f =
        ap (λ k. find k v.commitments) e
        ∙ later-keeps (commitment_hash env c) c u v reached later (record-find c t u h) in
      rw f (refl, refl)
