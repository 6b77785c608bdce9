-- ===== src/Service/Session/Accepted.antt =====
-- A session accepts the commitments of its participants, in whichever order they come.
use go_frost.Common.{
  ◌≡◌, ◌≢◌, refl, sym, ap, ◌∙◌, inl, inr, true, String, none, List, [], ◌∷◌, ◌++◌, map, length, All,
  All-Permᴰ, All-of_Elem, Distinct, Distinct-Permᴰ, Elem, arith, subst, look_up, insert-new,
  ne→==-false, ==_refl, le→ltb-false, length-map, length-Permᴰ,
}
use mathlib.Core.List.{Permᴰ, append-nil, append_assoc, map-append}
use go_frost.Bytes.{Bytes}
use go_frost.Errors.{Result, ok, ◌>>=◌}
use go_frost.Encoding.{get_participants}
use go_frost.Group.{Group}
use go_frost.Types.{Identifier, SigningCommitments, CommitmentList}
use go_frost.Signing.Package.{insertion_sort}
use go_frost.Service.Session.{
  SigningSession, expected, exists, new_signing_session, check_open, add_commitment,
  get_commitment_list,
}

Elem-expected : (id : Identifier) (ids : List Identifier) → Elem id ids → expected id ids ≡ true
unfolding expected
Elem-expected id [] m = absurd m
Elem-expected id (x ∷ xs) (inl e) = rw (e, ==_refl x)
Elem-expected id (x ∷ xs) (inr m) = ground (arith, Elem-expected id xs m)

module _ (g : Group) where
  abbrev entry : SigningCommitments g → Identifier × SigningCommitments g
  entry c = (c.identifier, c)

  look_up-absent :
      (id : Identifier) (cs : CommitmentList g)
      → All (λ (c : SigningCommitments g). c.identifier ≢ id) cs
      → look_up id (map entry cs) ≡ none
  unfolding look_up
  look_up-absent id [] n = refl
  look_up-absent id (c ∷ cs) n = rw (ne→==-false c.identifier id n.0) (look_up-absent id cs n.1)

  -- The calls of `AddCommitment` for a list of commitments.
  abbrev pub add_each : CommitmentList g → SigningSession g → Result (SigningSession g)
  add_each [] s = ok s
  add_each (c ∷ cs) s = add_commitment g c s >>= add_each cs

  -- The new session with the commitments `done`.
  abbrev with_commitments : String → List Identifier → Bytes → CommitmentList g → SigningSession g
  with_commitments id ids message done = record (new_signing_session g id ids message) {
    commitments = map entry done;
  }

  add_commitment-new :
      (id : String) (ids : List Identifier) (message : Bytes) (done : CommitmentList g)
      (c : SigningCommitments g)
      → Elem c.identifier ids
      → All (λ (d : SigningCommitments g). d.identifier ≢ c.identifier) done
      → add_commitment g c (with_commitments id ids message done)
        ≡ ok (with_commitments id ids message (done ++ (c ∷ [])))
  unfolding new_signing_session add_commitment check_open exists
  add_commitment-new id ids message done c m n =
      let e = Elem-expected c.identifier ids m in
      let f = look_up-absent c.identifier done n in
      let t = insert-new (λ d. d.identifier) (λ d. d) c.identifier c done n in
      let u = map-append entry done (c ∷ []) in rw (e, f, t, u)

  -- The entries of `done` differ from the first of the others.
  before_ne :
      (done cs : CommitmentList g) (c : SigningCommitments g)
      → Distinct (get_participants g (done ++ (c ∷ cs)))
      → All (λ (d : SigningCommitments g). d.identifier ≢ c.identifier) done
  unfolding get_participants
  before_ne [] cs c d = tt
  before_ne (b ∷ done) cs c d = (ne_middle done d.0, before_ne done cs c d.1)
    where
      ne_middle :
          (es : CommitmentList g)
          → All (λ i. b.identifier ≢ i) (get_participants g (es ++ (c ∷ cs)))
          → b.identifier ≢ c.identifier
      ne_middle [] n = n.0
      ne_middle (e ∷ es) n = ne_middle es n.1

  add_each-from :
      (id : String) (ids : List Identifier) (message : Bytes) (done cs : CommitmentList g)
      → Distinct (get_participants g (done ++ cs))
      → All (λ (c : SigningCommitments g). Elem c.identifier ids) cs
      → add_each cs (with_commitments id ids message done)
        ≡ ok (with_commitments id ids message (done ++ cs))
  add_each-from id ids message done [] d m =
      ap (λ t. ok (with_commitments id ids message t)) (sym (append-nil done))
  add_each-from id ids message done (c ∷ cs) d m =
      let e = append_assoc done (c ∷ []) cs in
      ap (λ r. r >>= add_each cs)
        (add_commitment-new id ids message done c m.0 (before_ne done cs c d))
      ∙ add_each-from id ids message (done ++ (c ∷ [])) cs
          (subst (λ t. Distinct (get_participants g t)) (sym e) d) m.1
      ∙ ap (λ t. ok (with_commitments id ids message t)) e

  map-entry : (cs : CommitmentList g) → map (λ e. e.1) (map entry cs) ≡ cs
  map-entry [] = refl
  map-entry (c ∷ cs) = ap (◌∷◌ c) (map-entry cs)

  All-participants :
      (P : Identifier → Type 0) (cs : CommitmentList g)
      → All P (get_participants g cs)
      → All (λ (c : SigningCommitments g). P c.identifier) cs
  unfolding get_participants
  All-participants P [] h = tt
  All-participants P (c ∷ cs) h = (h.0, All-participants P cs h.1)

  participants-length : (cs : CommitmentList g) → length (get_participants g cs) ≡ length cs
  unfolding get_participants
  participants-length cs = length-map (λ c. c.identifier) cs

  -- A new session for distinct participants accepts a commitment of each, in any order, and then
  -- `GetCommitmentList` returns them, sorted.
  pub get_commitment_list-collected :
      (id : String) (ids : List Identifier) (message : Bytes) (cs : CommitmentList g)
      → Distinct ids
      → Permᴰ (get_participants g cs) ids
      → (add_each cs (new_signing_session g id ids message) >>= get_commitment_list g)
        ≡ ok (insertion_sort g [] cs)
  unfolding get_commitment_list new_signing_session
  get_commitment_list-collected id ids message cs d p =
      let k : length cs ≡ length ids = sym (participants-length cs) ∙ length-Permᴰ p in
      let b =
        le→ltb-false (length (map entry cs)) (length ids) (omega (arith, length-map entry cs, k)) in
      ap (λ r. r >>= get_commitment_list g)
        (add_each-from id ids message [] cs (Distinct-Permᴰ p d)
          (All-participants (λ i. Elem i ids) cs (All-Permᴰ _ p (All-of_Elem _ ids (λ a m. m)))))
      ∙ rw (b, map-entry cs)
