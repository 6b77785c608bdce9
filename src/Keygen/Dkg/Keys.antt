-- ===== src/Keygen/Dkg/Keys.antt =====
-- What `Part3` returns when every participant follows the protocol.
use go_frost.Common.{
  ℕ, suc, ◌+◌, ◌-◌, ◌%◌, ◌^◌, ◌<◌, ◌≡◌, refl, sym, ap, ◌∙◌, ◌==◌, ==_refl, some, List, [], ◌∷◌, map,
  length, length-map, length-replicate, All, All-imp, All-of_Elem, Elem, Distinct, arith, true,
  replicate, ◌≤◌, All-Permᴰ, Permᴰ-map, Distinct-Permᴰ, Elem-Permᴰ, length-Permᴰ,
}
use mathlib.Core.List.Permᴰ
use mathlib.Core.List.{Permᴰ}
use go_frost.Algebra.{Field}
use go_frost.Algebra.Sums.{sum, sum_congr}
use go_frost.Errors.{ok}
use go_frost.Group.{Suite, IsPrimeOrder}
use go_frost.Group.Scalars.{scalars}
use go_frost.Polynomial.{evaluate}
use go_frost.Polynomial.Value.{evaluate-poly_value}
use go_frost.Types.{KeyPackage, Identifier}
use go_frost.Keygen.Dkg.{PublicKeyPackage}
use go_frost.Keygen.Dkg.Joint.{add_all-Permᴰ, length-add_all, poly_value-joint}
use go_frost.Keygen.Dkg.Rounds.{expected_count, part3, share_entry, Walks}
use go_frost.Keygen.Dkg.Collected.{aggregate_commitments-joint, committed_value}
use go_frost.Keygen.Dkg.Honest.{
  Peer, IsPeer, round1_of, round2_of, secret_of, joint_polynomial, accumulate-sum,
  check_senders-present, walked, IsWalks,
}

pub expected_count-others : (mx n : ℕ) → suc n ≡ mx → mx < 2 ^ 32 → (n == expected_count mx) ≡ true
unfolding expected_count
expected_count-others mx n e h =
    let q : (mx + (2 ^ 32 - 1)) % 2 ^ 32 ≡ n = omega arith in rw (q, ==_refl n)

split :
    {A : Type 0} (n : ℕ) (xs : List A)
    → length xs ≡ n
    → 1 ≤ n
    → (c : A) × (cs : List A) × (xs ≡ c ∷ cs)
split n [] e h = absurd (omega arith)
split n (x ∷ xs) e h = (x, xs, refl)

module _ (s : Suite) (l : IsPrimeOrder s.group) where
  instance abbrev field : Field s.Scalar
  field = scalars s.group l

  joint-evaluate :
      (n : ℕ) (ps : List (Peer s)) (x : s.Scalar)
      → All (IsPeer s n) ps
      → evaluate s.group (joint_polynomial s l n ps) x ≡ sum ps (λ p. evaluate s.group p.poly x)
  joint-evaluate n ps x h =
      evaluate-poly_value s.group l _ x
      ∙ poly_value-joint (λ (p : Peer s). p.poly) n ps x (All-imp ps (λ p q. q.coefficients) h)
      ∙ sum_congr ps _ _ (All-of_Elem _ ps (λ p m. sym (evaluate-poly_value s.group l p.poly x)))

  -- The key material for the joint polynomial `c ∷ cs`, with the entries of the participants in the
  -- order of a list.
  abbrev pub public_of : s.Scalar → List s.Scalar → List (Peer s) → PublicKeyPackage s.group
  public_of c cs ps = record {
    verifying_shares = map (committed_value s l (c ∷ cs)) ps;
    verifying_key = s.scalar_base_mult c;
  }

  abbrev pub key_of : ℕ → ℕ → s.Scalar → List s.Scalar → Peer s → List (Peer s) → KeyPackage s.group
  key_of mn mx c cs me ps = record {
    identifier = me.identifier;
    secret_share = evaluate s.group (c ∷ cs) me.x;
    group_public_key = some (s.scalar_base_mult c);
    verification_shares = map (share_entry s) (public_of c cs ps).verifying_shares;
    min_signers = mn;
    max_signers = mx;
  }

  part3-key :
      (walks : Walks s.group) (n mx : ℕ) (me : Peer s) (ps rs : List (Peer s)) (c : s.Scalar)
      (cs : List s.Scalar)
      → IsWalks s l walks
      → Permᴰ rs ps
      → Distinct (map (λ p. p.identifier) (me ∷ ps))
      → All (IsPeer s (suc n)) (me ∷ ps)
      → length (me ∷ ps) ≡ mx
      → mx < 2 ^ 32
      → joint_polynomial s l (suc n) (me ∷ ps) ≡ c ∷ cs
      → (bs ds : List (Peer s)) × Permᴰ bs (me ∷ ps)
        × Permᴰ ds (me ∷ ps)
        × (part3 s walks
              (some (secret_of s (suc n) mx me))
              (map (round1_of s) ps)
              (map (round2_of s me) rs)
            ≡ ok (key_of (suc n) mx c cs me ds, public_of c cs bs))
  unfolding part3
  part3-key walks n mx me ps rs c cs w o d h k b e =
      let ids : Peer s → Identifier = λ p. p.identifier in
      let (qs, qp, qe) = walked s l walks.senders (round1_of s) ps w.senders in
      let (ts, tp, te) = walked s l walks.received (round2_of s me) rs w.received in
      let sent = Permᴰ.trans tp o in
      let (bs, bp, be) = aggregate_commitments-joint s l walks n mx me ps c cs w d h e in
      let (ds, dp, de) = walked s l walks.listed (committed_value s l (c ∷ cs)) bs w.listed in
      let known : All (λ q. Elem q rs) qs =
        All-of_Elem _ qs (λ p m. Elem-Permᴰ p (Permᴰ.trans qp (Permᴰ.symm o)) m) in
      let others : All (λ q. Elem q ps) ts = All-of_Elem _ ts (λ p m. Elem-Permᴰ p sent m) in
      let share =
        joint-evaluate (suc n) (me ∷ ts) me.x (h.0, All-Permᴰ (IsPeer s (suc n)) sent h.1) in
      let same =
        add_all-Permᴰ (λ (p : Peer s). p.poly) (replicate (suc n) s.new_scalar)
          (Permᴰ.cons {a = me} refl sent)
        ∙ e in
      (
        bs,
        ds,
        bp,
        Permᴰ.trans dp bp,
        rw
            (
              length-map (round1_of s) ps,
              length-map (round2_of s me) rs,
              length-Permᴰ o,
              expected_count-others mx (length ps) k b,
              qe,
              check_senders-present s l me rs qs (Distinct-Permᴰ (Permᴰ-map ids o) d.1) known,
              te,
              accumulate-sum s l n me ps ts (evaluate s.group me.poly me.x) h.0.has_scalar d.1
                  others (All-Permᴰ (IsPeer s (suc n)) sent h.1),
              be,
              de,
            )
            (rw (sym share ∙ ap (λ t. evaluate s.group t me.x) same)),
      )

  -- All participants, `maxSigners` many and fewer than 2 ^ 32, have distinct identifiers with scalars
  -- and polynomials with `minSigners` coefficients, at least one; `all` lists them in any order. From
  -- what the others send, `Part3` succeeds for the participant `me`, whatever the orders in which the
  -- entries of round 1 and of round 2 are listed and in which each loop walks its map. The keys come
  -- from one polynomial, which depends on `all` only and whose value at a scalar is the sum of the
  -- participants' polynomials there: the participant's share is its value at the participant, the
  -- group key commits to its constant term, and the verifying and the verification shares are, in
  -- some order, the commitments to its values at the participants.
  pub part3-joint :
      (walks : Walks s.group) (n mx : ℕ) (me : Peer s) (ps rs all : List (Peer s))
      → IsWalks s l walks
      → Permᴰ rs ps
      → Permᴰ (me ∷ ps) all
      → Distinct (map (λ p. p.identifier) (me ∷ ps))
      → All (IsPeer s (suc n)) (me ∷ ps)
      → length (me ∷ ps) ≡ mx
      → mx < 2 ^ 32
      → (c : s.Scalar) × (cs : List s.Scalar) × (joint_polynomial s l (suc n) all ≡ c ∷ cs)
        × ((x : s.Scalar)
            → evaluate s.group (c ∷ cs) x
              ≡ sum ⦃f = scalars s.group l⦄ (me ∷ ps) (λ p. evaluate s.group p.poly x))
        × ((bs ds : List (Peer s)) × Permᴰ bs (me ∷ ps)
            × Permᴰ ds (me ∷ ps)
            × (part3 s walks
                  (some (secret_of s (suc n) mx me))
                  (map (round1_of s) ps)
                  (map (round2_of s me) rs)
                ≡ ok (key_of (suc n) mx c cs me ds, public_of c cs bs)))
  part3-joint walks n mx me ps rs all w r o d h k b =
      let joined = joint_polynomial s l (suc n) (me ∷ ps) in
      let (c, cs, e) =
        split (suc n) joined
          (length-add_all (λ (p : Peer s). p.poly) (suc n) (replicate (suc n) s.new_scalar)
            (me ∷ ps) (length-replicate (suc n) s.new_scalar)
            (All-imp (me ∷ ps) (λ p q. q.coefficients) h))
          (omega arith) in
      (
        c,
        cs,
        sym (add_all-Permᴰ (λ (p : Peer s). p.poly) (replicate (suc n) s.new_scalar) o) ∙ e,
        λ x. ap (λ t. evaluate s.group t x) (sym e) ∙ joint-evaluate (suc n) (me ∷ ps) x h,
        part3-key walks n mx me ps rs c cs w r d h k b e,
      )
