-- ===== src/Signing/Coordinator/Session.antt =====
-- The coordinator's `Sign` with participants that follow the protocol.
use go_frost.Common.{
  ℕ, ◌≡◌, ◌≢◌, refl, sym, ap, ◌∙◌, some, List, [], ◌∷◌, map, All, Distinct, look_up, insert, erase,
  look_up-insert, look_up-insert_other, look_up-erase_other, subst, Permᴰ-map, length, ◌≤◌,
  Distinct-Permᴰ, All-Permᴰ, Option,
}
use go_frost.Bytes.{Bytes}
use go_frost.Errors.{ok, bind-eq-ok, require, Error}
use go_frost.Group.{Suite, IsPrimeOrder}
use go_frost.Types.{Identifier, SigningNonces, SignatureShare, CommitmentList, Signature}
use go_frost.Security.Reputation.{Time}
use go_frost.Signing.Participant.{round_two}
use go_frost.Signing.Honest.{
  Signer, commitment_of, commitments_of, nonces_of, package_of, sign_all, nonce_of, session_prefix,
  session_challenge, IsHonest,
}
use go_frost.Signing.Coordinator.{
  Participant, Coordinator, CoordinatorState, tracked, collect_commitments, take_nonces,
  collect_shares, request_commitments, insertion_sort, check_reputation, coordinator_sign,
  request_signature_shares,
}
use mathlib.Core.List.{Permᴰ}
use go_frost.Encoding.{get_participants, validate_commitment_list}
use go_frost.Encoding.Order.{IsIncreasing, validate-IsIncreasing, IsIncreasing-Distinct}
use go_frost.Signing.Honest.Sign.{participants-identifiers}
use go_frost.Group.Scalars.{scalars}
use go_frost.Algebra.Sums.{sum}
use go_frost.Signing.Honest.Verify.{session-verify}
use go_frost.Signing.Aggregator.{aggregate, verify}
use go_frost.Signing.Package.Sorted.{insertion_sort-Permᴰ, insertion_sort-IsSorted}
use go_frost.Encoding.Sorted.{
  Distinct-get_participants, sorted→Increasing, IsIncreasing→Increasing, Increasing-Permᴰ,
}
use go_frost.Errors.Actions.{run-ok, lift}
use mathlib.Core.List.Permᴰ

module _ (s : Suite) (key : s.Element) (mn : ℕ) where
  -- The rounds of a participant that follows the protocol.
  abbrev pub follows : Signer s → Participant s.group
  follows p = record {
    first_round = ok (nonces_of s p, commitment_of s p);
    second_round = round_two s (package_of s key mn [] p);
  }

  abbrev pub IsListed : Coordinator s → Signer s → Type 0
  IsListed c p = look_up p.identifier c.participants ≡ some (follows p)

  abbrev pub HasNonces : List (Identifier × SigningNonces s.group) → Signer s → Type 0
  HasNonces m p = look_up p.identifier m ≡ some (nonces_of s p)

  abbrev pub fill :
      List (Signer s)
      → List (Identifier × SigningNonces s.group)
      → List (Identifier × SigningNonces s.group)
  fill [] m = m
  fill (p ∷ ps) m = fill ps (insert p.identifier (nonces_of s p) m)

  collect_commitments-follows :
      (now later : Time) (c : Coordinator s) (ps : List (Signer s)) (st : CoordinatorState s.group)
      → All (IsListed c) ps
      → collect_commitments s now later c (map (λ p. p.identifier) ps) st
        ≡ (ok (commitments_of s ps), record st { nonces_map = fill ps st.nonces_map })
  unfolding collect_commitments tracked
  collect_commitments-follows now later c [] st h = refl
  collect_commitments-follows now later c (p ∷ ps) st h =
      let t =
        collect_commitments-follows now later c ps
          (record st { nonces_map = insert p.identifier (nonces_of s p) st.nonces_map }) h.1 in
      rw (h.0, t)

  fill_other :
      (id : Identifier) (ps : List (Signer s)) (m : List (Identifier × SigningNonces s.group))
      → All (λ i. id ≢ i) (map (λ (p : Signer s). p.identifier) ps)
      → look_up id (fill ps m) ≡ look_up id m
  fill_other id [] m n = refl
  fill_other id (p ∷ ps) m n =
      fill_other id ps _ n.1
      ∙ look_up-insert_other p.identifier id (nonces_of s p) m (λ e. n.0 (sym e))

  pub fill-HasNonces :
      (ps : List (Signer s)) (m : List (Identifier × SigningNonces s.group))
      → Distinct (map (λ (p : Signer s). p.identifier) ps)
      → All (HasNonces (fill ps m)) ps
  fill-HasNonces [] m d = tt
  fill-HasNonces (p ∷ ps) m d = (
    fill_other p.identifier ps _ d.0 ∙ look_up-insert p.identifier (nonces_of s p) m,
    fill-HasNonces ps _ d.1,
  )

  abbrev drop_nonces :
      List (Signer s)
      → List (Identifier × SigningNonces s.group)
      → List (Identifier × SigningNonces s.group)
  drop_nonces [] m = m
  drop_nonces (p ∷ ps) m = drop_nonces ps (erase p.identifier m)

  erase-HasNonces :
      (p : Signer s) (ps : List (Signer s)) (m : List (Identifier × SigningNonces s.group))
      → All (λ i. p.identifier ≢ i) (map (λ (q : Signer s). q.identifier) ps)
      → All (HasNonces m) ps
      → All (HasNonces (erase p.identifier m)) ps
  erase-HasNonces p [] m n h = tt
  erase-HasNonces p (q ∷ ps) m n h =
      (look_up-erase_other p.identifier q.identifier m n.0 ∙ h.0, erase-HasNonces p ps m n.1 h.1)

  -- If every participant's second round succeeds, so does the loop.
  collect_shares-sign_all :
      (now later : Time) (c : Coordinator s) (msg : Bytes) (all : CommitmentList s.group)
      (ps : List (Signer s)) (st : CoordinatorState s.group)
      (shares : List (SignatureShare s.group))
      → All (IsListed c) ps
      → All (HasNonces st.nonces_map) ps
      → Distinct (map (λ (p : Signer s). p.identifier) ps)
      → sign_all s key mn msg all ps ≡ ok shares
      → collect_shares s now later c msg all (commitments_of s ps) st
        ≡ (ok shares, record st { nonces_map = drop_nonces ps st.nonces_map })
  unfolding collect_shares take_nonces tracked sign_all
  collect_shares-sign_all now later c msg all [] st shares h n d e = ap (λ t. (t, st)) e
  collect_shares-sign_all now later c msg all (p ∷ ps) st shares h n d e =
      let (z, hz, e1) =
        bind-eq-ok (round_two s (package_of s key mn [] p) (nonces_of s p) msg all) _ e in
      let (zs, hzs, e2) = bind-eq-ok (sign_all s key mn msg all ps) _ e1 in
      let t =
        collect_shares-sign_all now later c msg all ps
          (record st { nonces_map = erase p.identifier st.nonces_map }) zs h.1
          (erase-HasNonces p ps st.nonces_map d.0 n.1) d.1 hzs in
      rw (h.0, n.0, hz, t)
        (ap (λ t. (t, record st { nonces_map = drop_nonces (p ∷ ps) st.nonces_map })) e2)

module _ (s : Suite) (l : IsPrimeOrder s.group) (now later : Time) where
  -- The commitments are sorted, in whichever order the participants were asked.
  pub sorted_commitments :
      (rs ps : List (Signer s))
      → Permᴰ rs ps
      → IsIncreasing (map (λ p. p.identifier) ps)
      → insertion_sort s.group [] (commitments_of s rs) ≡ commitments_of s ps
  sorted_commitments rs ps p i =
      let j : IsIncreasing (get_participants s.group (commitments_of s ps)) =
        subst IsIncreasing (sym (participants-identifiers s l ps)) i in
      let q = Permᴰ-map (commitment_of s) p in
      let t = insertion_sort-Permᴰ s.group [] (commitments_of s rs) in
      let d = Distinct-get_participants s.group (Permᴰ.trans t q) (IsIncreasing-Distinct _ j) in
      Increasing-Permᴰ s.group (Permᴰ.trans t q)
        (sorted→Increasing s.group _ (insertion_sort-IsSorted s.group [] (commitments_of s rs) tt)
          d)
        (IsIncreasing→Increasing s.group (commitments_of s ps) j)

  request_commitments-follows :
      (key : s.Element) (mn : ℕ) (c : Coordinator s) (rs ps : List (Signer s)) (r : Signer s)
      (st : CoordinatorState s.group)
      → All (IsListed s key mn c) (r ∷ rs)
      → Permᴰ (r ∷ rs) ps
      → IsIncreasing (map (λ p. p.identifier) ps)
      → check_reputation st.reputation_tracker (map (λ p. p.identifier) (r ∷ rs)) ≡ ok tt
      → request_commitments s now later c (map (λ p. p.identifier) (r ∷ rs)) st
        ≡ (ok (commitments_of s ps), record st { nonces_map = fill s key mn (r ∷ rs) [] })
  unfolding request_commitments
  request_commitments-follows key mn c rs ps r st h p i x =
      let t =
        collect_commitments-follows s key mn now later c (r ∷ rs) (record st { nonces_map = [] })
          h in
      let o = sorted_commitments (r ∷ rs) ps p i in
      let v =
        (validate-IsIncreasing s.group (commitments_of s ps)).1
          (subst IsIncreasing (sym (participants-identifiers s l ps)) i) in
      rw (x, t, o, v)

  require-some : {A : Type 0} {o : Option A} {a : A} (e : Error) → o ≡ some a → require o e ≡ ok a
  require-some e h = rw h

  coordinator_sign-runs :
      (c : Coordinator s) (ids : List Identifier) (msg : Bytes) (key : s.Element)
      (cs : CommitmentList s.group) (shares : List (SignatureShare s.group))
      (signature : Signature s.group) (st s1 s2 : CoordinatorState s.group)
      → c.group_public_key ≡ some key
      → request_commitments s now later c ids st ≡ (ok cs, s1)
      → request_signature_shares s now later c cs msg s1 ≡ (ok shares, s2)
      → aggregate s c.min_signers (some key) cs msg shares ≡ ok signature
      → coordinator_sign s now later c ids msg st ≡ (ok signature, s2)
  unfolding coordinator_sign
  coordinator_sign-runs c ids msg key cs shares signature st s1 s2 hk h1 h2 ha =
      run-ok (lift (require c.group_public_key _)) _ st st (ap (λ r. (r, st)) (require-some _ hk))
      ∙ run-ok (request_commitments s now later c ids) _ st s1 h1
      ∙ run-ok (request_signature_shares s now later c cs msg) _ s1 s2 h2
      ∙ ap (λ r. (r, s2)) ha

  request_signature_shares-runs :
      (c : Coordinator s) (cs : CommitmentList s.group) (msg : Bytes)
      (st : CoordinatorState s.group)
      → validate_commitment_list s.group cs ≡ ok tt
      → request_signature_shares s now later c cs msg st ≡ collect_shares s now later c msg cs cs st
  unfolding request_signature_shares
  request_signature_shares-runs c cs msg st h = rw h

  -- Participants that follow the protocol, with shares of a secret key, distinct 32-bit identifiers
  -- and none of them excluded, are asked in any order. They are at least as many as the threshold
  -- and as the coefficients of the sharing polynomial; `ps` are the same in increasing order. Unless
  -- the key, the sum of the nonces or the challenge is zero, the coordinator's `Sign` returns a
  -- signature, which `Verify` accepts under the public key.
  pub coordinator_sign-verify :
      (k : s.Scalar) (cs : List s.Scalar) (msg : Bytes) (c : Coordinator s)
      (st : CoordinatorState s.group) (r : Signer s) (rs : List (Signer s)) (q : Signer s)
      (qs : List (Signer s))
      → Permᴰ (r ∷ rs) (q ∷ qs)
      → All (IsListed s (s.scalar_base_mult k) c.min_signers c) (r ∷ rs)
      → check_reputation st.reputation_tracker (map (λ p. p.identifier) (r ∷ rs)) ≡ ok tt
      → c.group_public_key ≡ some (s.scalar_base_mult k)
      → All (IsHonest s (k ∷ cs)) (q ∷ qs)
      → IsIncreasing (map (λ p. p.identifier) (q ∷ qs))
      → length (k ∷ cs) ≤ length (q ∷ qs)
      → c.min_signers ≤ length (q ∷ qs)
      → k ≢ s.new_scalar
      → sum ⦃f = scalars s.group l⦄
          (q ∷ qs)
          (nonce_of s (session_prefix s (s.scalar_base_mult k) (q ∷ qs) msg))
        ≢ s.new_scalar
      → session_challenge s
          (s.scalar_base_mult k)
          (sum ⦃f = scalars s.group l⦄
            (q ∷ qs)
            (nonce_of s (session_prefix s (s.scalar_base_mult k) (q ∷ qs) msg)))
          msg
        ≢ s.new_scalar
      → (signature : Signature s.group) × (su : CoordinatorState s.group) × (coordinator_sign s now
            later c
            (map (λ p. p.identifier) (r ∷ rs))
            msg
            st
          ≡ (ok signature, su))
        × (verify s msg signature (some (s.scalar_base_mult k)) ≡ ok tt)
  coordinator_sign-verify k cs msg c st r rs q qs p listed x pk h i n m nk nr nc =
      let key = s.scalar_base_mult k in
      let e = session-verify s l k cs c.min_signers msg q qs h i n m nk nr nc in
      let (shares, es, e1) =
        bind-eq-ok (sign_all s key c.min_signers msg (commitments_of s (q ∷ qs)) (q ∷ qs)) _ e in
      let (signature, ea, ev) =
        bind-eq-ok (aggregate s c.min_signers (some key) (commitments_of s (q ∷ qs)) msg shares) _
          e1 in
      let ids = IsIncreasing-Distinct (map (λ p. p.identifier) (q ∷ qs)) i in
      let first = request_commitments-follows key c.min_signers c rs (q ∷ qs) r st listed p i x in
      let filled =
        fill-HasNonces s key c.min_signers (r ∷ rs) []
          (Distinct-Permᴰ (Permᴰ-map (λ p. p.identifier) p) ids) in
      let second =
        collect_shares-sign_all s key c.min_signers now later c msg (commitments_of s (q ∷ qs))
          (q ∷ qs) (record st { nonces_map = fill s key c.min_signers (r ∷ rs) [] }) shares
          (All-Permᴰ _ (Permᴰ.symm p) listed) (All-Permᴰ _ (Permᴰ.symm p) filled) ids es in
      let v =
        (validate-IsIncreasing s.group (commitments_of s (q ∷ qs))).1
          (subst IsIncreasing (sym (participants-identifiers s l (q ∷ qs))) i) in
      let (s2, done) =
        ended _ (request_signature_shares-runs c (commitments_of s (q ∷ qs)) msg _ v ∙ second) in
      (
        signature,
        s2,
        coordinator_sign-runs c _ msg key (commitments_of s (q ∷ qs)) shares signature st _ s2 pk
            first done ea,
        ev,
      )
    where
      ended :
          {A : Type 0} {a : A} {out : A × CoordinatorState s.group} (su : CoordinatorState s.group)
          → out ≡ (a, su)
          → (t : CoordinatorState s.group) × (out ≡ (a, t))
      ended su e = (su, e)
