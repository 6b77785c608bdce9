-- ===== src/Service/Session/Steps.antt =====
-- The states that a session reaches, and what holds in all of them.
use go_frost.Common.{
  ◌≡◌, ◌≢◌, ◌==◌, refl, sym, ap, inl, inr, true, Bool-cases, String, none, List, [], ◌∷◌, ◌++◌, map,
  All, Distinct, Elem, look_up, insert, arith, ==→eq, All-snoc, subst, length, map-snoc, false,
  Option, some, Distinct-snoc,
}
use go_frost.Bytes.{Bytes}
use go_frost.Errors.{
  ok, bind-eq-ok, accept_if, reject_if, accept_if_iff, reject_if-eq-ok, ok_injective,
}
use go_frost.Group.{Group}
use go_frost.Types.{Identifier, SigningCommitments, SignatureShare}
use go_frost.Service.Session.{
  SigningSession, expected, new_signing_session, add_commitment, add_signature_share, cancel,
  exists, check_open,
}

module _ (g : Group) where
  -- One successful call on a session. The other methods do not change it, nor does a call that fails.
  pub data Step : SigningSession g → SigningSession g → Type 0 where
    commitment :
        {s t : SigningSession g} (c : SigningCommitments g) → add_commitment g c s ≡ ok t → Step s t
    share :
        {s t : SigningSession g} (z : SignatureShare g)
        → add_signature_share g z s ≡ ok t
        → Step s t
    canceled : {s t : SigningSession g} → cancel g s ≡ ok t → Step s t

  -- The states of the sessions that are made for `ids`.
  pub data Reached (ids : List Identifier) : SigningSession g → Type 0 where
    start : (id : String) (message : Bytes) → Reached ids (new_signing_session g id ids message)
    step : {s t : SigningSession g} → Reached ids s → Step s t → Reached ids t

expected-Elem : (id : Identifier) (ids : List Identifier) → expected id ids ≡ true → Elem id ids
unfolding expected
expected-Elem id [] h = cc
expected-Elem id (x ∷ xs) h = elim (Bool-cases (x == id)) [
  | inl e ↦ inl (sym (==→eq x id e))
  | inr e ↦ inr (expected-Elem id xs (ground arith))
]

found-Elem :
    (id : Identifier) (xs ids : List Identifier) → xs ≡ ids → expected id xs ≡ true → Elem id ids
found-Elem id xs ids e h = subst (Elem id) e (expected-Elem id xs h)

module _ {A : Type 0} where
  -- The entries of a map of values with their own identifier: each under its identifier, which is
  -- one of `ids`, and each key once.
  pub record IsIndexed (id : A → Identifier) (ids : List Identifier) (m : List (Identifier × A))
      : Type 0 where
    pub keys_distinct : Distinct (map (λ e. e.0) m)
    pub keys_expected : All (λ e. Elem e.0 ids) m
    pub keys_own : All (λ e. id e.1 ≡ e.0) m

  pub insert-absent :
      (k : Identifier) (a : A) (m : List (Identifier × A))
      → look_up k m ≡ none
      → insert k a m ≡ m ++ ((k, a) ∷ [])
  unfolding look_up insert
  insert-absent k a [] h = refl
  insert-absent k a ((j, b) ∷ m) h = elim (Bool-cases (j == k)) [
    | inl e ↦ cc (rw e at h)
    | inr e ↦ rw e (ap (◌∷◌ (j, b)) (insert-absent k a m (rw e at h)))
  ]

  absent-All :
      (k : Identifier) (m : List (Identifier × A))
      → look_up k m ≡ none
      → All (λ j. j ≢ k) (map (λ e. e.0) m)
  unfolding look_up
  absent-All k [] h = tt
  absent-All k ((j, b) ∷ m) h = elim (Bool-cases (j == k)) [
    | inl e ↦ cc (rw e at h)
    | inr e ↦ ((λ p. ground arith), absent-All k m (rw e at h))
  ]

  -- A new value goes under its identifier.
  insert-IsIndexed :
      (id : A → Identifier) (ids : List Identifier) (m : List (Identifier × A)) (a : A)
      → IsIndexed id ids m
      → Elem (id a) ids
      → look_up (id a) m ≡ none
      → IsIndexed id ids (insert (id a) a m)
  insert-IsIndexed id ids m a h e n =
      subst (IsIndexed id ids) (sym (insert-absent (id a) a m n)) (record {
        keys_distinct =
            subst Distinct (sym (map-snoc (λ t. t.0) m (id a, a)))
              (Distinct-snoc (map (λ t. t.0) m) (id a) h.keys_distinct (absent-All (id a) m n));
        keys_expected = All-snoc _ m (id a, a) h.keys_expected e;
        keys_own = All-snoc _ m (id a, a) h.keys_own refl;
      })

module _ (g : Group) where
  -- What holds of every session for `ids`.
  pub record IsValid (ids : List Identifier) (s : SigningSession g) : Type 0 where
    pub participants : s.participant_ids ≡ ids
    pub threshold : s.min_participants ≡ length ids
    pub incomplete : s.is_complete ≡ false
    pub commitments_indexed : IsIndexed (λ c. c.identifier) ids s.commitments
    pub shares_indexed : IsIndexed (λ c. c.identifier) ids s.signature_shares

exists-false : {A : Type 0} (o : Option A) → exists o ≡ false → o ≡ none
unfolding exists
exists-false none h = refl
exists-false (some a) h = cc

module _ (g : Group) where
  Step-IsValid :
      (ids : List Identifier) (s t : SigningSession g)
      → IsValid g ids s
      → Step g s t
      → IsValid g ids t
  unfolding add_commitment add_signature_share cancel
  Step-IsValid ids s t v (Step.commitment c h) =
      let (_, _, h1) = bind-eq-ok (check_open g s) _ h in
      let (_, e, h2) = bind-eq-ok (accept_if (expected c.identifier s.participant_ids) _) _ h1 in
      let (_, n, h3) =
        bind-eq-ok (reject_if (exists (look_up c.identifier s.commitments)) _) _ h2 in
      subst (IsValid g ids) (ok_injective h3) (record {
        participants = v.participants;
        threshold = v.threshold;
        incomplete = v.incomplete;
        commitments_indexed =
            insert-IsIndexed (λ c. c.identifier) ids s.commitments c v.commitments_indexed
              (found-Elem c.identifier s.participant_ids ids v.participants
                ((accept_if_iff _ _).0 e))
              (exists-false _ (reject_if-eq-ok _ _ n));
        shares_indexed = v.shares_indexed;
      })
  Step-IsValid ids s t v (Step.share z h) =
      let (_, _, h1) = bind-eq-ok (check_open g s) _ h in
      let (_, e, h2) = bind-eq-ok (accept_if (expected z.identifier s.participant_ids) _) _ h1 in
      let (_, n, h3) =
        bind-eq-ok (reject_if (exists (look_up z.identifier s.signature_shares)) _) _ h2 in
      subst (IsValid g ids) (ok_injective h3) (record {
        participants = v.participants;
        threshold = v.threshold;
        incomplete = v.incomplete;
        commitments_indexed = v.commitments_indexed;
        shares_indexed =
            insert-IsIndexed (λ c. c.identifier) ids s.signature_shares z v.shares_indexed
              (found-Elem z.identifier s.participant_ids ids v.participants
                ((accept_if_iff _ _).0 e))
              (exists-false _ (reject_if-eq-ok _ _ n));
      })
  Step-IsValid ids s t v (Step.canceled h) =
      let (_, _, h1) = bind-eq-ok (reject_if s.is_complete _) _ h in
      subst (IsValid g ids) (ok_injective h1) (record {
        participants = v.participants;
        threshold = v.threshold;
        incomplete = v.incomplete;
        commitments_indexed = v.commitments_indexed;
        shares_indexed = v.shares_indexed;
      })

  -- In every state that a session for `ids` reaches, its maps hold at most one value for each
  -- identifier, under that identifier, which is one of `ids`; as many values as there are `ids` are
  -- wanted; and the session is not complete.
  pub Reached-IsValid :
      (ids : List Identifier) (s : SigningSession g) → Reached g ids s → IsValid g ids s
  unfolding new_signing_session
  Reached-IsValid ids s (Reached.start id message) = record {
    participants = refl;
    threshold = refl;
    incomplete = refl;
    commitments_indexed = record { keys_distinct = tt; keys_expected = tt; keys_own = tt };
    shares_indexed = record { keys_distinct = tt; keys_expected = tt; keys_own = tt };
  }
  Reached-IsValid ids t (Reached.step {s = s} r h) =
      Step-IsValid ids s t (Reached-IsValid ids s r) h
