-- ===== src/Keygen/Dkg/Honest.antt =====
-- The last round of a distributed key generation in which every participant follows the protocol.
use go_frost.Common.{
  ℕ, suc, ◌≡◌, refl, sym, ap, ◌∙◌, Option, some, List, [], ◌∷◌, map, length, All, Elem, Distinct,
  arith, iff_trans, ◌↔◌, look_up-Elem, Permᴰ-map_inverse,
}
use go_frost.Algebra.{Field, ◌⊕◌}
use go_frost.Algebra.Sums.{sum}
use go_frost.Commitments.{evaluate_commitment_polynomial-base}
use go_frost.Encoding.{identifier_to_scalar}
use go_frost.Errors.{ok, accept_if_iff}
use go_frost.Group.{Suite, IsPrimeOrder}
use go_frost.Group.Scalars.{scalars, same-base}
use go_frost.Polynomial.{evaluate}
use go_frost.Polynomial.Value.{evaluate-poly_value}
use go_frost.Types.{Identifier, Polynomial}
use go_frost.Keygen.Dkg.{Proof, Round1Package, Round2Package, Round2SecretPackage}
use go_frost.Keygen.Dkg.Joint.{joint}
use go_frost.Keygen.Dkg.Rounds.{verify_received, check_senders, accumulate, Walk, Walks}
use mathlib.Core.List.{Permᴰ}

module _ (s : Suite) where
  -- A participant, with its scalar, its polynomial and its proof of knowledge.
  pub record Peer : Type 0 where
    pub identifier : Identifier
    pub x : s.Scalar
    pub poly : Polynomial s.group
    pub proof : Proof s.group

  pub record IsPeer (n : ℕ) (p : Peer) : Type 0 where
    pub has_scalar : identifier_to_scalar s.group p.identifier ≡ ok p.x
    pub coefficients : length p.poly ≡ n

  abbrev pub commitment_of : Peer → List s.Element
  commitment_of p = map s.scalar_base_mult p.poly

  -- What a participant broadcasts in round 1.
  abbrev pub round1_of : Peer → Identifier × Option (Round1Package s.group)
  round1_of p =
      (p.identifier, some (record { commitment = commitment_of p; proof_of_knowledge = p.proof }))

  -- What the other participant `p` sends to `me` in round 2.
  abbrev pub round2_of : Peer → Peer → Identifier × Option (Round2Package s.group)
  round2_of me p =
      (p.identifier, some (record { signing_share = some (evaluate s.group p.poly me.x) }))

  -- What the participant keeps.
  abbrev pub secret_of : ℕ → ℕ → Peer → Round2SecretPackage s.group
  secret_of mn mx me = record {
    identifier = me.identifier;
    commitment = commitment_of me;
    secret_share = evaluate s.group me.poly me.x;
    min_signers = mn;
    max_signers = mx;
  }

module _ (s : Suite) (l : IsPrimeOrder s.group) where
  instance abbrev field : Field s.Scalar
  field = scalars s.group l

  -- The sum of the participants' polynomials.
  abbrev pub joint_polynomial : ℕ → List (Peer s) → Polynomial s.group
  joint_polynomial n ps = joint ⦃f = scalars s.group l⦄ (λ (p : Peer s). p.poly) n ps

  -- Against the commitments to a polynomial that has a coefficient, `VerifyShare` accepts a share
  -- exactly when it is the polynomial's value at the recipient's scalar.
  pub verify_received-evaluate :
      (id : Identifier) (x share : s.Scalar) (c : s.Scalar) (cs : List s.Scalar)
      → identifier_to_scalar s.group id ≡ ok x
      → (verify_received s id (some share) (map s.scalar_base_mult (c ∷ cs)) ≡ ok tt)
        ↔ (share ≡ evaluate s.group (c ∷ cs) x)
  unfolding verify_received
  verify_received-evaluate id x share c cs h =
      rw
        (
          h,
          evaluate_commitment_polynomial-base s.group l (c ∷ cs) x,
          evaluate-poly_value s.group l (c ∷ cs) x,
        )
        (iff_trans (accept_if_iff _ _) (same-base s.group l share _))

  verify_received-honest :
      (n : ℕ) (me : Peer s) (poly : Polynomial s.group)
      → identifier_to_scalar s.group me.identifier ≡ ok me.x
      → length poly ≡ suc n
      → verify_received s me.identifier
          (some (evaluate s.group poly me.x))
          (map s.scalar_base_mult poly)
        ≡ ok tt
  verify_received-honest n me [] h k = absurd (omega arith)
  verify_received-honest n me (c ∷ cs) h k =
      (verify_received-evaluate me.identifier me.x _ c cs h).1 refl

  pub accumulate-sum :
      (n : ℕ) (me : Peer s) (ps qs : List (Peer s)) (acc : s.Scalar)
      → identifier_to_scalar s.group me.identifier ≡ ok me.x
      → Distinct (map (λ p. p.identifier) ps)
      → All (λ q. Elem q ps) qs
      → All (IsPeer s (suc n)) qs
      → accumulate s me.identifier (map (round1_of s) ps) acc (map (round2_of s me) qs)
        ≡ ok (acc ⊕ sum qs (λ p. evaluate s.group p.poly me.x))
  unfolding accumulate
  accumulate-sum n me ps [] acc h d m q = ap ok (sym (field.add-zero acc))
  accumulate-sum n me ps (p ∷ qs) acc h d m q =
      rw
        (
          look_up-Elem (λ (p : Peer s). p.identifier) (λ p. (round1_of s p).1) ps p d m.0,
          verify_received-honest n me p.poly h q.0.coefficients,
        )
        (accumulate-sum n me ps qs (s.add acc (evaluate s.group p.poly me.x)) h d m.1 q.1
          ∙ ap ok (field.add_assoc acc _ _))

  -- A loop over the entries for some participants walks them in some order.
  abbrev pub IsWalk : {A : Type 0} → Walk A → Type 0
  IsWalk {A} walk = (m : List (Identifier × A)) → Permᴰ (walk m) m

  pub record IsWalks (walks : Walks s.group) : Type 0 where
    pub senders : IsWalk walks.senders
    pub received : IsWalk walks.received
    pub listed : IsWalk walks.listed
    pub collected : IsWalk walks.collected
    pub summed : IsWalk walks.summed
    pub evaluated : IsWalk walks.evaluated

  pub walked :
      {A : Type 0} (walk : Walk A) (f : Peer s → Identifier × A) (ps : List (Peer s))
      → IsWalk walk
      → (qs : List (Peer s)) × Permᴰ qs ps × (walk (map f ps) ≡ map f qs)
  walked walk f ps h = Permᴰ-map_inverse f ps (h (map f ps)) refl

  pub check_senders-present :
      (me : Peer s) (ps qs : List (Peer s))
      → Distinct (map (λ p. p.identifier) ps)
      → All (λ q. Elem q ps) qs
      → check_senders s (map (round2_of s me) ps) (map (round1_of s) qs) ≡ ok tt
  unfolding check_senders
  check_senders-present me ps [] d m = refl
  check_senders-present me ps (q ∷ qs) d m =
      rw (look_up-Elem (λ (p : Peer s). p.identifier) (λ p. (round2_of s me p).1) ps q d m.0)
        (check_senders-present me ps qs d m.1)
