-- ===== src/Signing/Strategy/Cheaters.antt =====
-- The strategy that checks all shares names every participant whose share is wrong.
use go_frost.Common.{
  ℕ, Bool, ◌≤◌, ◌≡◌, ◌≢◌, refl, sym, ap, ◌∙◌, some, List, [], ◌∷◌, map, length, le→ltb-false, All,
  Elem, inl, inr, if◌then◌else◌, Bool-cases, subst, length-map, arith,
}
use go_frost.Algebra.{Field}
use go_frost.Algebra.Sums.{sum}
use go_frost.Bytes.{Bytes}
use go_frost.Encoding.Order.{IsIncreasing, IsIncreasing-Distinct, validate-IsIncreasing}
use go_frost.Errors.{ok, fail, Error, signature_share_error, sentinel, Sentinel, Result}
use go_frost.Errors.Culprits.{get_culprits}
use go_frost.Group.{Suite, IsPrimeOrder}
use go_frost.Group.Scalars.{scalars, equal_false}
use go_frost.Types.{Identifier, SignatureShare, Polynomial}
use go_frost.Signing.Honest.{
  Signer, IsHonest, commitments_of, nonce_of, session_prefix, session_challenge,
}
use go_frost.Signing.Honest.Sign.{
  participants-identifiers, participant_scalars-x, scalars-Distinct, challenge-session, response,
}
use go_frost.Signing.Honest.Verify.{commit_group-nonces}
use go_frost.Signing.Honest.Checked.{key_of, share_of}
use go_frost.Signing.Strategy.Lookup.{share_passes-response}
use go_frost.Signing.Strategy.{
  collect_culprits, aggregate_unless, aggregate_with_strategy, aggregate_with_all_cheater_detection,
  all_cheaters,
}

module _ (s : Suite) (l : IsPrimeOrder s.group) where
  instance abbrev field : Field s.Scalar
  field = scalars s.group l

  -- Shares that participants answer with.
  abbrev pub answers : List (Signer s × s.Scalar) → List (SignatureShare s.group)
  answers = map (λ a. share_of s l a.0 a.1)

  -- The participants whose answer is not the response of the session.
  abbrev pub cheaters :
      Bytes → List (Signer s) → s.Scalar → List (Signer s × s.Scalar) → List Identifier
  cheaters prefix all c [] = []
  cheaters prefix all c (a ∷ rest) =
      if s.equal a.1 (response s l prefix all c a.0).signature_share
      then cheaters prefix all c rest
      else a.0.identifier ∷ cheaters prefix all c rest

  collect_culprits-cheaters :
      (passes : SignatureShare s.group → Result Bool) (prefix : Bytes) (c : s.Scalar)
      (all : List (Signer s)) (zs : List (Signer s × s.Scalar))
      → ((p : Signer s) (z : s.Scalar)
          → Elem p all
          → passes (share_of s l p z)
            ≡ ok (s.equal z (response s l prefix all c p).signature_share))
      → All (λ a. Elem a.0 all) zs
      → collect_culprits s passes (answers zs) ≡ ok (cheaters prefix all c zs)
  unfolding collect_culprits
  collect_culprits-cheaters passes prefix c all [] h m = refl
  collect_culprits-cheaters passes prefix c all (a ∷ zs) h m =
      rw (h a.0 a.1 m.0, collect_culprits-cheaters passes prefix c all zs h m.1)

  cheaters-nonempty :
      (prefix : Bytes) (all : List (Signer s)) (c : s.Scalar) (zs : List (Signer s × s.Scalar))
      (a : Signer s × s.Scalar)
      → Elem a zs
      → a.1 ≢ (response s l prefix all c a.0).signature_share
      → (i : Identifier) × (is : List Identifier) × (cheaters prefix all c zs ≡ i ∷ is)
  cheaters-nonempty prefix all c [] a m n = absurd m
  cheaters-nonempty prefix all c (b ∷ zs) a (inl e) n =
      let n : b.1 ≢ (response s l prefix all c b.0).signature_share =
        subst (λ (t : Signer s × s.Scalar). t.1 ≢ (response s l prefix all c t.0).signature_share) e
          n in
      rw (equal_false s.group l b.1 _ n) (b.0.identifier, cheaters prefix all c zs, refl)
  cheaters-nonempty prefix all c (b ∷ zs) a (inr m) n =
      elim (Bool-cases (s.equal b.1 (response s l prefix all c b.0).signature_share)) [
        | inl e ↦ rw e (cheaters-nonempty prefix all c zs a m n)
        | inr e ↦ rw e (b.0.identifier, cheaters prefix all c zs, refl)
      ]

  aggregate-cheaters :
      (poly : Polynomial s.group) (key : s.Element) (mn : ℕ) (msg : Bytes) (r c : s.Scalar)
      (q : Signer s) (qs : List (Signer s)) (zs : List (Signer s × s.Scalar))
      → r ≡ sum (q ∷ qs) (nonce_of s (session_prefix s key (q ∷ qs) msg))
      → c ≡ session_challenge s key r msg
      → All (IsHonest s poly) (q ∷ qs)
      → IsIncreasing (map (λ p. p.identifier) (q ∷ qs))
      → mn ≤ length zs
      → r ≢ s.new_scalar
      → c ≢ s.new_scalar
      → All (λ a. Elem a.0 (q ∷ qs)) zs
      → aggregate_with_strategy s
          (some key)
          (commitments_of s (q ∷ qs))
          msg
          (answers zs)
          (map (key_of s) (q ∷ qs))
          all_cheaters
          mn
        ≡ aggregate_unless s
            (cheaters (session_prefix s key (q ∷ qs) msg) (q ∷ qs) c zs)
            (s.scalar_base_mult r)
            (answers zs)
  unfolding aggregate_with_strategy aggregate_with_all_cheater_detection
  aggregate-cheaters poly key mn msg r c q qs zs er ec h i n nr nc m =
      let prefix = session_prefix s key (q ∷ qs) msg in
      let d = IsIncreasing-Distinct (map (λ p. p.identifier) (q ∷ qs)) i in
      let dx = scalars-Distinct s l poly (q ∷ qs) h d in
      rw (
        (validate-IsIncreasing s.group (commitments_of s (q ∷ qs))).1
            (rw (participants-identifiers s l (q ∷ qs)) i),
        le→ltb-false (length (answers zs)) mn
            (omega (arith, length-map (λ (a : Signer s × s.Scalar). share_of s l a.0 a.1) zs, n)),
        commit_group-nonces s l poly key msg q qs h (λ e. nr (er ∙ e)),
        sym er,
        challenge-session s l key r msg (λ e. nc (ec ∙ e)),
        sym ec,
        participants-identifiers s l (q ∷ qs),
        participant_scalars-x s l poly (q ∷ qs) h,
        collect_culprits-cheaters _ prefix c (q ∷ qs) zs
            (λ p z e. share_passes-response s l poly prefix c (q ∷ qs) p z h d dx e) m,
      )

  -- In a session with a commitment list of honest participants, some of them answer with shares, at
  -- least as many as the threshold, and one of the answers is not the right response. Unless the sum
  -- of the nonces or the challenge is zero, the strategy that looks for all cheaters fails, and the
  -- culprits of its error are the participants of all answers that are wrong, and no others.
  pub aggregate_with_strategy-cheaters :
      (poly : Polynomial s.group) (key : s.Element) (mn : ℕ) (msg : Bytes) (r c : s.Scalar)
      (q : Signer s) (qs : List (Signer s)) (zs : List (Signer s × s.Scalar))
      (a : Signer s × s.Scalar)
      → r ≡ sum ⦃f = scalars s.group l⦄ (q ∷ qs) (nonce_of s (session_prefix s key (q ∷ qs) msg))
      → c ≡ session_challenge s key r msg
      → All (IsHonest s poly) (q ∷ qs)
      → IsIncreasing (map (λ p. p.identifier) (q ∷ qs))
      → mn ≤ length zs
      → r ≢ s.new_scalar
      → c ≢ s.new_scalar
      → All (λ a. Elem a.0 (q ∷ qs)) zs
      → Elem a zs
      → a.1 ≢ (response s l (session_prefix s key (q ∷ qs) msg) (q ∷ qs) c a.0).signature_share
      → (e : Error) × (aggregate_with_strategy s
            (some key)
            (commitments_of s (q ∷ qs))
            msg
            (answers zs)
            (map (key_of s) (q ∷ qs))
            all_cheaters
            mn
          ≡ fail e)
        × (get_culprits e ≡ cheaters (session_prefix s key (q ∷ qs) msg) (q ∷ qs) c zs)
  unfolding aggregate_unless get_culprits
  aggregate_with_strategy-cheaters poly key mn msg r c q qs zs a er ec h i n nr nc m w wrong =
      let prefix = session_prefix s key (q ∷ qs) msg in
      let (id, ids, e) = cheaters-nonempty prefix (q ∷ qs) c zs a w wrong in
      (
        signature_share_error (id ∷ ids) "signature share verification failed"
            (sentinel Sentinel.invalid_signature_share),
        aggregate-cheaters poly key mn msg r c q qs zs er ec h i n nr nc m
            ∙ ap (λ t. aggregate_unless s t (s.scalar_base_mult r) (answers zs)) e,
        sym e,
      )
