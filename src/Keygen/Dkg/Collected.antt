-- ===== src/Keygen/Dkg/Collected.antt =====
-- What `aggregateCommitments` computes when every participant follows the protocol.
use go_frost.Common.{
  ℕ, zero, suc, ◌≡◌, ◌≢◌, refl, sym, ap, ap₂, ◌∙◌, List, [], ◌∷◌, ◌++◌, map, replicate,
  length-replicate, All, All-imp, Distinct, All-snoc, map-snoc, insert-new, Permᴰ-map,
  Distinct-Permᴰ, All-Permᴰ,
}
use go_frost.Algebra.{Field}
use go_frost.Commitments.{evaluate_commitment_polynomial-base}
use go_frost.Errors.{ok}
use go_frost.Group.{Suite, IsPrimeOrder}
use go_frost.Group.Scalars.{scalars}
use go_frost.Polynomial.{evaluate}
use go_frost.Polynomial.Value.{evaluate-poly_value}
use go_frost.Types.{Identifier}
use go_frost.Keygen.Dkg.Joint.{sum_commitments-base, add_all-Permᴰ}
use go_frost.Keygen.Dkg.Rounds.{collect_commitments, verifying_shares, aggregate_commitments, Walks}
use mathlib.Core.List.{append-nil, append_assoc, Permᴰ}
use go_frost.Keygen.Dkg.Honest.{
  Peer, IsPeer, commitment_of, round1_of, secret_of, joint_polynomial, walked, IsWalks,
}

module _ (s : Suite) (l : IsPrimeOrder s.group) where
  instance abbrev field : Field s.Scalar
  field = scalars s.group l

  abbrev commitment_entry : Peer s → Identifier × List s.Element
  commitment_entry p = (p.identifier, commitment_of s p)

  All-fresh :
      (done : List (Peer s)) (p : Peer s) (ps : List (Peer s))
      → All (λ x. p.identifier ≢ x) (map (λ p. p.identifier) ps)
      → All (λ (q : Peer s). All (λ (d : Peer s). d.identifier ≢ q.identifier) done) ps
      → All
          (λ (q : Peer s). All (λ (d : Peer s). d.identifier ≢ q.identifier) (done ++ (p ∷ [])))
          ps
  All-fresh done p [] d n = tt
  All-fresh done p (q ∷ qs) d n = (
    All-snoc (λ (d : Peer s). d.identifier ≢ q.identifier) done p n.0 d.0,
    All-fresh done p qs d.1 n.1,
  )

  collect_commitments-entries :
      (done ps : List (Peer s))
      → Distinct (map (λ p. p.identifier) ps)
      → All (λ (p : Peer s). All (λ (d : Peer s). d.identifier ≢ p.identifier) done) ps
      → collect_commitments s (map commitment_entry done) (map (round1_of s) ps)
        ≡ ok (map commitment_entry (done ++ ps))
  unfolding collect_commitments
  collect_commitments-entries done [] d n =
      ap (λ t. ok (map commitment_entry t)) (sym (append-nil done))
  collect_commitments-entries done (p ∷ ps) d n =
      ap (λ t. collect_commitments s t (map (round1_of s) ps))
        (insert-new (λ (p : Peer s). p.identifier) (commitment_of s) p.identifier
            (commitment_of s p) done n.0
          ∙ sym (map-snoc commitment_entry done p))
      ∙ collect_commitments-entries (done ++ (p ∷ [])) ps d.1 (All-fresh done p ps d.0 n.1)
      ∙ ap (λ t. ok (map commitment_entry t)) (append_assoc done (p ∷ []) ps)

  verifying_shares-values :
      (cs : List s.Scalar) (n : ℕ) (ps : List (Peer s))
      → All (IsPeer s n) ps
      → verifying_shares s (map s.scalar_base_mult cs) (map commitment_entry ps)
        ≡ ok (map (λ p. (p.identifier, s.scalar_base_mult (evaluate s.group cs p.x))) ps)
  unfolding verifying_shares
  verifying_shares-values cs n [] h = refl
  verifying_shares-values cs n (p ∷ ps) h = rw (
    h.0.has_scalar,
    evaluate_commitment_polynomial-base s.group l cs p.x,
    verifying_shares-values cs n ps h.1,
    evaluate-poly_value s.group l cs p.x,
  )

  map-replicate :
      (n : ℕ) → replicate n s.identity ≡ map s.scalar_base_mult (replicate n s.new_scalar)
  map-replicate zero = refl
  map-replicate (suc n) = ap₂ (◌∷◌) (sym l.base-zero) (map-replicate n)

  only :
      (me : Peer s) (ps : List (Peer s))
      → All (λ x. me.identifier ≢ x) (map (λ p. p.identifier) ps)
      → All (λ (p : Peer s). All (λ (d : Peer s). d.identifier ≢ p.identifier) (me ∷ [])) ps
  only me [] d = tt
  only me (p ∷ ps) d = ((d.0, tt), only me ps d.1)

  -- The commitment to the joint polynomial at a participant.
  abbrev pub committed_value : List s.Scalar → Peer s → Identifier × s.Element
  committed_value cs p = (p.identifier, s.scalar_base_mult (evaluate s.group cs p.x))

  pub aggregate_commitments-joint :
      (walks : Walks s.group) (n mx : ℕ) (me : Peer s) (ps : List (Peer s)) (c : s.Scalar)
      (cs : List s.Scalar)
      → IsWalks s l walks
      → Distinct (map (λ p. p.identifier) (me ∷ ps))
      → All (IsPeer s (suc n)) (me ∷ ps)
      → joint_polynomial s l (suc n) (me ∷ ps) ≡ c ∷ cs
      → (bs : List (Peer s)) × Permᴰ bs (me ∷ ps)
        × (aggregate_commitments s walks (secret_of s (suc n) mx me) (map (round1_of s) ps)
            ≡ ok (record {
              verifying_shares = map (committed_value (c ∷ cs)) bs;
              verifying_key = s.scalar_base_mult c;
            }))
  unfolding aggregate_commitments
  aggregate_commitments-joint walks n mx me ps c cs w d h e =
      let (qs, qp, qe) = walked s l walks.collected (round1_of s) ps w.collected in
      let order = Permᴰ.cons refl qp in
      let dq = Distinct-Permᴰ (Permᴰ-map (λ (p : Peer s). p.identifier) order) d in
      let (ss, sp, se) = walked s l walks.summed commitment_entry (me ∷ qs) w.summed in
      let (bs, bp, be) = walked s l walks.evaluated commitment_entry (me ∷ qs) w.evaluated in
      let pa = Permᴰ.trans sp order in
      let pb = Permᴰ.trans bp order in
      let same = add_all-Permᴰ (λ (p : Peer s). p.poly) (replicate (suc n) s.new_scalar) pa ∙ e in
      (
        bs,
        pb,
        rw (
          qe,
          collect_commitments-entries (me ∷ []) qs dq.1 (only me qs dq.0),
          se,
          be,
          map-replicate (suc n),
          sum_commitments-base s l (λ (p : Peer s). p.identifier) (λ p. p.poly) (suc n)
              (replicate (suc n) s.new_scalar) ss (length-replicate (suc n) s.new_scalar)
              (All-imp ss (λ p q. q.coefficients) (All-Permᴰ (IsPeer s (suc n)) pa h)),
          same,
          verifying_shares-values (c ∷ cs) (suc n) bs (All-Permᴰ (IsPeer s (suc n)) pb h),
        ),
      )
