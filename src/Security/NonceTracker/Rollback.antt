-- ===== src/Security/NonceTracker/Rollback.antt =====
-- Recorded nonce commitments are refused, also what is left by a call that failed.
use go_frost.Common.{
  ◌≡◌, refl, sym, ap, ◌∙◌, inl, inr, String, none, some, Option-cases, find, subst,
}
use go_frost.Errors.{Result, ok, fail, panic, Error, deref}
use go_frost.Errors.Actions.{Action, lift, pure, never_ok, then-ok, ◌>>=◌, run-ok, run-fail}
use go_frost.Group.{Group}
use go_frost.Types.{Identifier, SigningCommitments}
use go_frost.Security.Reputation.{Time}
use go_frost.Security.CommitmentTracker.{
  CommitmentIdentifier, CommitmentTracker, commitment_hash, reuse_error, record_at,
  record_commitment, check_commitment,
}
use go_frost.Security.CommitmentTracker.Reuse.{
  Reached, Later, record_commitment-refused, record-keeps, record-find,
}
use go_frost.Security.NonceTracker.{
  NonceEnvironment, commitment_for, clear_participant, record_or, record_signing_commitments,
  or_report, record_binding,
}

module _ (g : Group) (env : NonceEnvironment) where
  or_report-ok :
      (cleanup : Action CommitmentTracker (Unit {0})) (report : Error → Error)
      (out : Result (Unit {0}) × CommitmentTracker) (u : CommitmentTracker)
      → or_report g env cleanup report out ≡ (ok tt, u)
      → out ≡ (ok tt, u)
  or_report-ok cleanup report (ok _, t) u h = h
  or_report-ok cleanup report (fail e, t) u h = absurd (never_ok (λ q. cc q) h)
  or_report-ok cleanup report (panic, t) u h = absurd (never_ok (λ q. cc q) h)

  -- After `RecordSigningCommitments` has accepted a participant's commitments in a session, it
  -- refuses them at every later time, until the session is cleared or its commitments expire, and
  -- the refused call changes nothing.
  pub record_signing_commitments-refused :
      (now again : Time) (session : String) (id : Identifier) (c : SigningCommitments g)
      (t u v : CommitmentTracker)
      → Reached env.tracker t
      → record_signing_commitments g env now session id c t ≡ (ok tt, u)
      → Later env.tracker session u v
      → (e : Error) × (record_signing_commitments g env again session id c v ≡ (fail e, v))
  unfolding record_signing_commitments record_binding commitment_for commitment_hash record_or
  record_signing_commitments-refused now again session id c t u v r h later =
      let (hiding, s1, h1, k1) = then-ok (lift (deref c.hiding_nonce_commitment)) _ t u h in
      let (_, s2, h2, k2) =
        then-ok (record_or g env (pure tt) _ (commitment_for g env session id "hiding" now hiding))
          _ s1 u k1 in
      let (binding, s3, h3, k3) = then-ok (lift (deref c.binding_nonce_commitment)) _ s2 u k2 in
      let hid = commitment_for g env session id "hiding" now hiding in
      let bin = commitment_for g env session id "binding" now binding in
      let h2' = or_report-ok (pure tt) _ (record_commitment env.tracker hid s1) s2 h2 in
      let k3' =
        or_report-ok (clear_participant g env session id) _ (record_commitment env.tracker bin s3) u
          k3 in
      let s23 : s2 ≡ s3 = ap (λ p. p.1) h3 in
      let end : u ≡ (record_commitment env.tracker bin s2).1 =
        sym (ap (λ p. p.1) k3') ∙ ap (λ x. (record_commitment env.tracker bin x).1) (sym s23) in
      let after : Later env.tracker session s2 v =
        Later.recorded bin (subst (λ x. Later env.tracker session x v) end later) in
      let reached : Reached env.tracker s1 = subst (Reached env.tracker) (ap (λ p. p.1) h1) r in
      let (_, q) =
        record_commitment-refused env.tracker hid
          (commitment_for g env session id "hiding" again hiding) s1 s2 v reached h2' after refl in
      (
        _,
        run-ok (lift (deref c.hiding_nonce_commitment)) _ v v (ap (λ p. (p.0, v)) h1)
            ∙ run-fail
                (record_or g env (pure tt)
                  (env.annotate "hiding commitment recording failed" session id)
                  (commitment_for g env session id "hiding" again hiding))
                (λ _. record_binding g env again session id c) v v
                (ap
                  (or_report g env (pure tt)
                    (env.annotate "hiding commitment recording failed" session id))
                  q),
      )

  or_report-state :
      (session : String) (id : Identifier) (report : Error → Error)
      (out : Result (Unit {0}) × CommitmentTracker)
      → (or_report g env (clear_participant g env session id) report out).1 ≡ out.1
  unfolding clear_participant
  or_report-state session id report (ok _, t) = refl
  or_report-state session id report (fail e, t) = refl
  or_report-state session id report (panic, t) = refl

  record_binding-keeps :
      (now : Time) (session : String) (id : Identifier) (c : SigningCommitments g) (h : String)
      (d : CommitmentIdentifier) (t : CommitmentTracker)
      → find h t.commitments ≡ some d
      → find h (record_binding g env now session id c t).1.commitments ≡ some d
  unfolding record_binding record_or
  record_binding-keeps now session id c h d t f = elim (Option-cases c.binding_nonce_commitment) [
    | inl e ↦ rw e f
    | inr (b, e) ↦ rw e (
        ap (λ (x : CommitmentTracker). find h x.commitments)
          (or_report-state session id
            (env.annotate "binding commitment recording failed" session id)
            (record_commitment env.tracker (commitment_for g env session id "binding" now b) t))
        ∙ record-keeps env.tracker h d (commitment_for g env session id "binding" now b) t f)
  ]

  check-record :
      (c : CommitmentIdentifier) (t : CommitmentTracker)
      → check_commitment env.tracker c t ≡ ok tt
      → (u : CommitmentTracker) × (record_commitment env.tracker c t ≡ (ok tt, u))
  unfolding check_commitment record_commitment
  check-record c t h = elim (Option-cases (find (commitment_hash env.tracker c) t.commitments)) [
    | inl e ↦ ((record_at env.tracker none (commitment_hash env.tracker c) c t).1, rw e)
    | inr (d, e) ↦ cc (rw e at h)
  ]

  find-refused :
      (c : CommitmentIdentifier) (t : CommitmentTracker) {d : CommitmentIdentifier}
      → find (commitment_hash env.tracker c) t.commitments ≡ some d
      → check_commitment env.tracker c t ≡ fail (reuse_error env.tracker c)
  unfolding check_commitment
  find-refused c t f = rw f

  -- A failed `RecordSigningCommitments` is not rolled back: if it fails on a hiding commitment that
  -- was not recorded before, then that commitment is recorded afterwards, and `CheckCommitment`
  -- refuses it.
  pub record_signing_commitments-kept :
      (now : Time) (session : String) (id : Identifier) (c : SigningCommitments g)
      (hiding : g.Element) (t u : CommitmentTracker) (e : Error)
      → c.hiding_nonce_commitment ≡ some hiding
      → check_commitment env.tracker (commitment_for g env session id "hiding" now hiding) t ≡ ok tt
      → record_signing_commitments g env now session id c t ≡ (fail e, u)
      → check_commitment env.tracker (commitment_for g env session id "hiding" now hiding) u
        ≡ fail (reuse_error env.tracker (commitment_for g env session id "hiding" now hiding))
  unfolding record_signing_commitments record_or
  record_signing_commitments-kept now session id c hiding t u e hc hf h =
      let hid = commitment_for g env session id "hiding" now hiding in
      let report = env.annotate "hiding commitment recording failed" session id in
      let (t1, h1) = check-record hid t hf in
      let first : (record_or g env (pure tt) report hid
              >>= (λ _. record_binding g env now session id c))
            t
          ≡ (fail e, u) =
        sym (run-ok (lift (deref c.hiding_nonce_commitment)) _ t t (ap (λ o. (deref o, t)) hc))
        ∙ h in
      let second : record_binding g env now session id c t1 ≡ (fail e, u) =
        sym (
          run-ok (record_or g env (pure tt) report hid) (λ _. record_binding g env now session id c)
            t t1 (ap (or_report g env (pure tt) report) h1))
        ∙ first in
      let f =
        record_binding-keeps now session id c (commitment_hash env.tracker hid) hid t1
          (record-find env.tracker hid t t1 h1) in
      find-refused hid u (
        ap
          (λ (p : Result (Unit {0}) × CommitmentTracker).
            find (commitment_hash env.tracker hid) p.1.commitments)
          (sym second)
        ∙ f)
