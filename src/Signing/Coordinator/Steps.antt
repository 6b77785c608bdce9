-- ===== src/Signing/Coordinator/Steps.antt =====
-- The loop of the second round, share by share: what it takes from the map of nonces, and that it
-- puts nothing back.
use go_frost.Common.{
  ◌≡◌, ap, ◌∙◌, Option, none, some, List, [], ◌∷◌, look_up, erase, look_up-erase,
  look_up-erase_absent, String, ◌++◌, refl,
}
use go_frost.Bytes.{Bytes}
use go_frost.Encoding.{validate_commitment_list}
use go_frost.Errors.{Result, panic, fail, ok, require, ok_injective, require-eq-ok}
use go_frost.Errors.Actions.{lift, then-ok, never_ok, Action, pure, then_run, ◌>>=◌}
use go_frost.Group.{Suite}
use go_frost.Types.{Identifier, SigningCommitments, SigningNonces, SignatureShare, CommitmentList}
use go_frost.Security.Reputation.{Time, MisbehaviorType}
use go_frost.Signing.Coordinator.{
  Coordinator, CoordinatorState, tracked, take_nonces, taken, collect_shares,
  request_signature_shares, Participant,
}

module _ (s : Suite) (now later : Time) where
  abbrev pub State : Type 0
  State = CoordinatorState s.group

  tracked-ok :
      {A : Type 0} (c : Coordinator s) (id : Identifier) (m : MisbehaviorType) (text : String)
      (r : Result A) (st su : State) {a : A}
      → tracked s now later c id m text r st ≡ (ok a, su)
      → (r ≡ ok a) × (st ≡ su)
  unfolding tracked
  tracked-ok c id m text panic st su h = absurd (never_ok (λ q. cc q) h)
  tracked-ok c id m text (fail e) st su h = absurd (never_ok (λ q. cc q) h)
  tracked-ok c id m text (ok a) st su h = (ap (λ p. p.0) h, ap (λ p. p.1) h)

  taken-ok :
      (id : Identifier) (o : Option (SigningNonces s.group)) (st su : State)
      {n : SigningNonces s.group}
      → taken s now later id o st ≡ (ok n, su)
      → (o ≡ some n) × (record st { nonces_map = erase id st.nonces_map } ≡ su)
  taken-ok id none st su h = absurd (never_ok (λ q. cc q) h)
  taken-ok id (some m) st su {n} h =
      let q : ok m ≡ ok n = ap (λ p. p.0) h in (ap some (ok_injective q), ap (λ p. p.1) h)

  abbrev pub erased : Identifier → State → State
  erased id st = record st { nonces_map = erase id st.nonces_map }

  -- The loop after a share that is collected.
  pub collected :
      (c : Coordinator s) (msg : Bytes) (all : CommitmentList s.group)
      (m : SigningCommitments s.group) (ms : CommitmentList s.group) (st : State)
      (p : Participant s.group) (n : SigningNonces s.group) (z : SignatureShare s.group)
      → look_up m.identifier c.participants ≡ some p
      → look_up m.identifier st.nonces_map ≡ some n
      → p.second_round n msg all ≡ ok z
      → collect_shares s now later c msg all (m ∷ ms) st
        ≡ (collect_shares s now later c msg all ms >>= (λ zs. pure (z ∷ zs)))
            (erased m.identifier st)
  unfolding collect_shares take_nonces tracked
  collected c msg all m ms st p n z hp hn hz = rw (hp, hn, hz) refl

  -- The state after an action whose result is only changed.
  then_pure-state :
      {A B : Type 0} (first : Action State A) (f : A → B) (st : State)
      → ((first >>= (λ a. pure (f a))) st).1 ≡ (first st).1
  then_pure-state {A} {B} first f st = go (first st)
    where
      go : (done : Result A × State) → (then_run done.0 (λ a. pure (f a)) done.1).1 ≡ done.1
      go (panic, u) = refl
      go (fail e, u) = refl
      go (ok a, u) = refl

  -- A share that is collected: the participant's nonces are in the map before and not after, and
  -- nothing else changes.
  pub step-ok :
      (c : Coordinator s) (msg : Bytes) (all : CommitmentList s.group)
      (m : SigningCommitments s.group) (ms : CommitmentList s.group) (st su : State)
      {shares : List (SignatureShare s.group)}
      → collect_shares s now later c msg all (m ∷ ms) st ≡ (ok shares, su)
      → (p : Participant s.group) × (n : SigningNonces s.group) × (z : SignatureShare s.group)
        × (rest : List (SignatureShare s.group)) × (look_up m.identifier c.participants ≡ some p)
        × (look_up m.identifier st.nonces_map ≡ some n)
        × (p.second_round n msg all ≡ ok z)
        × (collect_shares s now later c msg all ms (erased m.identifier st) ≡ (ok rest, su))
  unfolding collect_shares take_nonces
  step-ok c msg all m ms st su h =
      let (p, s1, h1, k1) =
        then-ok (lift (require (look_up m.identifier c.participants) _)) _ st su h in
      let (n, s2, h2, k2) = then-ok (take_nonces s now later m.identifier) _ s1 su k1 in
      let (z, s3, h3, k3) =
        then-ok
          (tracked s now later c m.identifier MisbehaviorType.invalid_share _
            (p.second_round n msg all))
          _ s2 su k2 in
      let (zs, s4, h4, k4) = then-ok (collect_shares s now later c msg all ms) _ s3 su k3 in
      let (f, e2) = taken-ok m.identifier (look_up m.identifier s1.nonces_map) s1 s2 h2 in
      let (hz, e3) =
        tracked-ok c m.identifier MisbehaviorType.invalid_share _ (p.second_round n msg all) s2 s3
          h3 in
      let e1 : st ≡ s1 = ap (λ t. t.1) h1 in
      let e4 : s4 ≡ su = ap (λ t. t.1) k4 in
      (
        p,
        n,
        z,
        zs,
        require-eq-ok _ _ (ap (λ t. t.0) h1),
        ap (λ (t : State). look_up m.identifier t.nonces_map) e1 ∙ f,
        hz,
        ap (collect_shares s now later c msg all ms) (ap (erased m.identifier) e1 ∙ e2 ∙ e3)
            ∙ h4
            ∙ ap (λ t. (ok zs, t)) e4,
      )

  -- Nonces that are absent stay absent, whatever the action returns.
  abbrev pub Keeps : {A : Type 0} → Identifier → Action State A → Type 0
  Keeps id action =
      (st : State) → look_up id st.nonces_map ≡ none → look_up id (action st).1.nonces_map ≡ none

  then-Keeps :
      {A B : Type 0} (id : Identifier) (first : Action State A) (rest : A → Action State B)
      → Keeps id first
      → ((a : A) → Keeps id (rest a))
      → Keeps id (first >>= rest)
  then-Keeps {A} {B} id first rest k r st n = go (first st) (k st n)
    where
      go :
          (done : Result A × State)
          → look_up id done.1.nonces_map ≡ none
          → look_up id (then_run done.0 rest done.1).1.nonces_map ≡ none
      go (panic, u) h = h
      go (fail e, u) h = h
      go (ok a, u) h = r a u h

  tracked-Keeps :
      {A : Type 0} (id : Identifier) (c : Coordinator s) (who : Identifier) (m : MisbehaviorType)
      (text : String) (r : Result A)
      → Keeps id (tracked s now later c who m text r)
  unfolding tracked
  tracked-Keeps id c who m text panic st n = n
  tracked-Keeps id c who m text (fail e) st n = n
  tracked-Keeps id c who m text (ok a) st n = n

  taken-absent :
      (id who : Identifier) (o : Option (SigningNonces s.group)) (st : State)
      → look_up id st.nonces_map ≡ none
      → look_up id (taken s now later who o st).1.nonces_map ≡ none
  taken-absent id who none st n = n
  taken-absent id who (some m) st n = look_up-erase_absent who id st.nonces_map n

  answer-Keeps :
      (id : Identifier) (c : Coordinator s) (who : Identifier) (m : MisbehaviorType) (text : String)
      (r : Result (SignatureShare s.group)) (rest : Action State (List (SignatureShare s.group)))
      → Keeps id rest
      → Keeps id (tracked s now later c who m text r >>= (λ z. rest >>= (λ zs. pure (z ∷ zs))))
  answer-Keeps id c who m text r rest k =
      then-Keeps id (tracked s now later c who m text r) _ (tracked-Keeps id c who m text r)
        (λ z. then-Keeps id rest _ k (λ zs st n. n))

  pub collect_shares-Keeps :
      (id : Identifier) (c : Coordinator s) (msg : Bytes) (all ms : CommitmentList s.group)
      → Keeps id (collect_shares s now later c msg all ms)
  unfolding collect_shares take_nonces
  collect_shares-Keeps id c msg all [] = λ st n. n
  collect_shares-Keeps id c msg all (m ∷ ms) =
      then-Keeps id (lift (require (look_up m.identifier c.participants) _)) _ (λ st n. n)
        (λ p.
          then-Keeps id (take_nonces s now later m.identifier) _
            (λ st n. taken-absent id m.identifier (look_up m.identifier st.nonces_map) st n)
            (λ n.
              answer-Keeps id c m.identifier MisbehaviorType.invalid_share _
                (p.second_round n msg all) (collect_shares s now later c msg all ms)
                (collect_shares-Keeps id c msg all ms)))

  pub request_signature_shares-Keeps :
      (id : Identifier) (c : Coordinator s) (cs : CommitmentList s.group) (msg : Bytes)
      → Keeps id (request_signature_shares s now later c cs msg)
  unfolding request_signature_shares
  request_signature_shares-Keeps id c cs msg =
      then-Keeps id (lift (validate_commitment_list s.group cs)) _ (λ st n. n)
        (λ _. collect_shares-Keeps id c msg cs cs)

  -- The loop takes the nonces of a participant that it reaches.
  pub collect_shares-taken :
      (c : Coordinator s) (msg : Bytes) (all before rest : CommitmentList s.group)
      (m : SigningCommitments s.group) (st su : State) (p : Participant s.group)
      (n : SigningNonces s.group) {shares : List (SignatureShare s.group)}
      → collect_shares s now later c msg all before st ≡ (ok shares, su)
      → look_up m.identifier c.participants ≡ some p
      → look_up m.identifier su.nonces_map ≡ some n
      → look_up m.identifier
          (collect_shares s now later c msg all (before ++ (m ∷ rest)) st).1.nonces_map
        ≡ none
  unfolding collect_shares take_nonces
  collect_shares-taken c msg all [] rest m st su p n h hp hn =
      let hs : look_up m.identifier st.nonces_map ≡ some n =
        ap (λ (t : State). look_up m.identifier t.nonces_map) (ap (λ t. t.1) h) ∙ hn in
      rw (hp, hs)
        (answer-Keeps m.identifier c m.identifier MisbehaviorType.invalid_share _
          (p.second_round n msg all) (collect_shares s now later c msg all rest)
          (collect_shares-Keeps m.identifier c msg all rest) (erased m.identifier st)
          (look_up-erase m.identifier st.nonces_map))
  collect_shares-taken c msg all (b ∷ before) rest m st su p n h hp hn =
      let (q, k, z, zs, fp, fn, fz, again) = step-ok c msg all b before st su h in
      ap (λ (t : State). look_up m.identifier t.nonces_map)
        (ap (λ t. t.1) (collected c msg all b (before ++ (m ∷ rest)) st q k z fp fn fz)
          ∙ then_pure-state (collect_shares s now later c msg all (before ++ (m ∷ rest)))
              (λ zs. z ∷ zs) (erased b.identifier st))
      ∙ collect_shares-taken c msg all before rest m (erased b.identifier st) su p n again hp hn
