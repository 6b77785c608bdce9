-- ===== src/Signing/Coordinator/Nonces.antt =====
-- The coordinator uses nonces once, and asks no excluded participant.
use go_frost.Common.{
  ◌≡◌, ◌≢◌, sym, ap, ◌∙◌, inl, inr, true, Bool-cases, none, some, List, [], ◌∷◌, Elem, look_up,
  subst, ◌++◌, refl,
}
use go_frost.Bytes.{Bytes}
use go_frost.Encoding.{validate_commitment_list}
use go_frost.Errors.{Result, fail, ok, Error, participant_error}
use go_frost.Errors.Actions.{lift, then-ok, run-ok}
use go_frost.Group.{Suite}
use go_frost.Types.{Identifier, SigningCommitments, SigningNonces, SignatureShare, CommitmentList}
use go_frost.Security.Reputation.{Time, Tracker, is_excluded}
use go_frost.Signing.Coordinator.Steps.{
  erased, collected, step-ok, collect_shares-Keeps, request_signature_shares-Keeps,
  collect_shares-taken,
}
use go_frost.Signing.Coordinator.{
  Coordinator, CoordinatorState, participant_excluded, check_reputation, request_commitments,
  collect_shares, request_signature_shares, Participant,
}

module _ (s : Suite) (now later : Time) where
  abbrev State : Type 0
  State = CoordinatorState s.group

  -- A call of `RequestSignatureShares` hands out the nonces of a participant: the list is valid, the
  -- shares of those before the participant are collected, the participant is known and its nonces are
  -- in the map. Its second round is called next, and the call may fail there or later.
  pub record HandsOut (c : Coordinator s) (cs : CommitmentList s.group) (msg : Bytes) (st : State)
      (id : Identifier) : Type 0 where
    pub before : CommitmentList s.group
    pub own : SigningCommitments s.group
    pub rest : CommitmentList s.group
    pub shares : List (SignatureShare s.group)
    pub reached : State
    pub participant : Participant s.group
    pub nonces : SigningNonces s.group
    pub identified : own.identifier ≡ id
    pub listed : cs ≡ before ++ (own ∷ rest)
    pub validated : validate_commitment_list s.group cs ≡ ok tt
    pub collected_before : collect_shares s now later c msg cs before st ≡ (ok shares, reached)
    pub known : look_up id c.participants ≡ some participant
    pub present : look_up id reached.nonces_map ≡ some nonces

  -- What is left after calls of `RequestSignatureShares`, whatever each of them returns.
  abbrev pub after_calls : Coordinator s → List (CommitmentList s.group × Bytes) → State → State
  after_calls c [] st = st
  after_calls c (call ∷ calls) st =
      after_calls c calls (request_signature_shares s now later c call.0 call.1 st).1

  after_calls-absent :
      (c : Coordinator s) (calls : List (CommitmentList s.group × Bytes)) (id : Identifier)
      (st : State)
      → look_up id st.nonces_map ≡ none
      → look_up id (after_calls c calls st).nonces_map ≡ none
  after_calls-absent c [] id st n = n
  after_calls-absent c (call ∷ calls) id st n =
      after_calls-absent c calls id _
        (request_signature_shares-Keeps s now later id c call.0 call.1 st n)

  HandsOut-taken :
      (c : Coordinator s) (cs : CommitmentList s.group) (msg : Bytes) (st : State) (id : Identifier)
      → HandsOut c cs msg st id
      → look_up id (request_signature_shares s now later c cs msg st).1.nonces_map ≡ none
  unfolding request_signature_shares
  HandsOut-taken c cs msg st id h =
      let same = sym h.identified in
      let gone =
        collect_shares-taken s now later c msg cs h.before h.rest h.own st h.reached h.participant
          h.nonces h.collected_before
          (subst (λ i. look_up i c.participants ≡ some h.participant) same h.known)
          (subst (λ i. look_up i h.reached.nonces_map ≡ some h.nonces) same h.present) in
      rw h.validated (
        subst (λ i. look_up i (collect_shares s now later c msg cs cs st).1.nonces_map ≡ none)
          h.identified
          (ap
              (λ ms.
                look_up h.own.identifier (collect_shares s now later c msg cs ms st).1.nonces_map)
              h.listed
            ∙ gone))

  HandsOut-present :
      (c : Coordinator s) (cs : CommitmentList s.group) (msg : Bytes) (st : State) (id : Identifier)
      → HandsOut c cs msg st id
      → look_up id st.nonces_map ≢ none
  HandsOut-present c cs msg st id h n =
      let kept = collect_shares-Keeps s now later id c msg cs h.before st n in
      let kept : look_up id h.reached.nonces_map ≡ none =
        ap (λ (t : Result (List (SignatureShare s.group)) × State). look_up id t.1.nonces_map)
          (sym h.collected_before)
        ∙ kept in
      cc (kept, h.present)

  reached_in :
      (c : Coordinator s) (msg : Bytes) (all ms : CommitmentList s.group) (st su : State)
      (m : SigningCommitments s.group) {shares : List (SignatureShare s.group)}
      → collect_shares s now later c msg all ms st ≡ (ok shares, su)
      → Elem m ms
      → (before rest : CommitmentList s.group) × (zs : List (SignatureShare s.group))
        × (reached : State) × (p : Participant s.group) × (n : SigningNonces s.group) × (ms
            ≡ before ++ (m ∷ rest))
        × (collect_shares s now later c msg all before st ≡ (ok zs, reached))
        × (look_up m.identifier c.participants ≡ some p)
        × (look_up m.identifier reached.nonces_map ≡ some n)
  unfolding collect_shares
  reached_in c msg all [] st su m h e = absurd e
  reached_in c msg all (d ∷ ms) st su m h (inl e) =
      let (p, n, z, zs, fp, fn, fz, again) = step-ok s now later c msg all d ms st su h in
      let same = ap (λ (t : SigningCommitments s.group). t.identifier) (sym e) in
      (
        [],
        ms,
        [],
        st,
        p,
        n,
        ap (λ t. t ∷ ms) (sym e),
        refl,
        subst (λ i. look_up i c.participants ≡ some p) same fp,
        subst (λ i. look_up i st.nonces_map ≡ some n) same fn,
      )
  reached_in c msg all (d ∷ ms) st su m h (inr e) =
      let (q, k, z, zs, fq, fk, fz, again) = step-ok s now later c msg all d ms st su h in
      let (before, rest, ys, reached, p, n, el, er, ep, en) =
        reached_in c msg all ms (erased s now later d.identifier st) su m again e in
      (
        d ∷ before,
        rest,
        z ∷ ys,
        reached,
        p,
        n,
        ap (λ t. d ∷ t) el,
        collected s now later c msg all d before st q k z fq fk fz
            ∙ run-ok (collect_shares s now later c msg all before) _
                (erased s now later d.identifier st) reached er,
        ep,
        en,
      )

  -- A call that returns shares hands out the nonces of every participant of its list.
  pub request_signature_shares-HandsOut :
      (c : Coordinator s) (cs : CommitmentList s.group) (msg : Bytes) (st su : State)
      (m : SigningCommitments s.group) {shares : List (SignatureShare s.group)}
      → request_signature_shares s now later c cs msg st ≡ (ok shares, su)
      → Elem m cs
      → HandsOut c cs msg st m.identifier
  unfolding request_signature_shares
  request_signature_shares-HandsOut c cs msg st su m h e =
      let (_, s1, h1, h2) = then-ok (lift (validate_commitment_list s.group cs)) _ st su h in
      let same : s1 ≡ st = ap (λ t. t.1) (sym h1) in
      let (before, rest, zs, reached, p, n, el, er, ep, en) =
        reached_in c msg cs cs st su m (ap (collect_shares s now later c msg cs cs) (sym same) ∙ h2)
          e in
      record {
        before = before;
        own = m;
        rest = rest;
        shares = zs;
        reached = reached;
        participant = p;
        nonces = n;
        identified = refl;
        listed = el;
        validated = ap (λ t. t.0) h1;
        collected_before = er;
        known = ep;
        present = en;
      }

  -- A call of `RequestSignatureShares` that hands out the nonces of a participant, even when it fails
  -- afterwards, is followed by any number of such calls, for any lists and messages and with any
  -- results. Before new commitments are requested, no later call hands out nonces of that participant
  -- again.
  pub request_signature_shares-once :
      (c : Coordinator s) (cs ds : CommitmentList s.group) (msg other : Bytes) (st : State)
      (calls : List (CommitmentList s.group × Bytes)) (id : Identifier)
      → HandsOut c cs msg st id
      → ¬ HandsOut c ds other (after_calls c ((cs, msg) ∷ calls) st) id
  request_signature_shares-once c cs ds msg other st calls id h again =
      HandsOut-present c ds other _ id again
        (after_calls-absent c calls id _ (HandsOut-taken c cs msg st id h))

  check_reputation-excluded :
      (t : Tracker) (ids : List Identifier) (id : Identifier)
      → Elem id ids
      → is_excluded id t ≡ true
      → (e : Error) × (check_reputation (some t) ids ≡ fail e)
  unfolding check_reputation
  check_reputation-excluded t [] id m x = absurd m
  check_reputation-excluded t (i ∷ ids) id (inl p) x =
      let q : is_excluded i t ≡ true = ap (λ k. is_excluded k t) (sym p) ∙ x in
      (participant_error i "participant is excluded" participant_excluded, rw (q, check_reputation))
  check_reputation-excluded t (i ∷ ids) id (inr m) x = elim (Bool-cases (is_excluded i t)) [
    | inl q ↦ (
      participant_error i "participant is excluded" participant_excluded,
      rw (q, check_reputation),
    )
    | inr q ↦ let (e, r) = check_reputation-excluded t ids id m x in (e, rw (q, check_reputation) r)
  ]

  -- If the tracker excludes one of the participants, `RequestCommitments` fails and changes nothing:
  -- no participant is asked, and the nonces of an earlier request stay.
  pub request_commitments-excluded :
      (c : Coordinator s) (ids : List Identifier) (id : Identifier) (t : Tracker) (st : State)
      → st.reputation_tracker ≡ some t
      → Elem id ids
      → is_excluded id t ≡ true
      → (e : Error) × (request_commitments s now later c ids st ≡ (fail e, st))
  unfolding request_commitments
  request_commitments-excluded c [] id t st h m x = absurd m
  request_commitments-excluded c (i ∷ ids) id t st h m x =
      let (e, q) = check_reputation-excluded t (i ∷ ids) id m x in (e, rw (h, q))
