-- ===== src/Service/Frost/Signed.antt =====
-- The signature that the service makes from the key packages of participants.
use go_frost.Common.{
  ℕ, ◌+◌, ◌*◌, ◌≤◌, ◌≡◌, ◌≢◌, refl, sym, ◌∙◌, false, some, List, [], ◌∷◌, ◌++◌, map, length,
  length-map, All, Distinct, insert, arith, le→ltb-false, ltb, subst,
}
use go_frost.Algebra.Sums.{sum}
use go_frost.Bytes.{Bytes}
use go_frost.Encoding.Order.{IsIncreasing, IsIncreasing-Distinct}
use go_frost.Errors.{Result, ok, bind-eq-ok}
use go_frost.Group.{Suite, IsPrimeOrder}
use go_frost.Group.Scalars.{scalars}
use go_frost.Keygen.Dealer.{contains}
use go_frost.Types.{
  Identifier, SigningNonces, SignatureShare, Signature, VerificationShare, KeyPackage,
  CommitmentList,
}
use go_frost.Service.Frost.{
  check_packages, validate_key_packages, threshold_of, service_round_one, service_round_two,
  sign_packages, service_sign, service_verify,
}
use go_frost.Service.Frost.Delegates.{service_verify-verify}
use go_frost.Signing.Aggregator.{aggregate}
use go_frost.Signing.Coordinator.Session.{HasNonces, fill, fill-HasNonces, sorted_commitments}
use go_frost.Signing.Honest.{
  Signer, IsHonest, commitment_of, commitments_of, nonces_of, nonce_of, package_of, session_prefix,
  session_challenge, sign_all,
}
use go_frost.Signing.Honest.Verify.{session-verify}
use go_frost.Signing.Package.{insertion_sort}
use go_frost.Signing.Participant.{round_one, round_two}
use mathlib.Core.List.{Permᴰ}

same_order : {A : Type 0} (xs : List A) → Permᴰ xs xs
same_order [] = Permᴰ.nil
same_order (x ∷ xs) = Permᴰ.cons refl (same_order xs)

module _ (s : Suite) (key : s.Element) (mn : ℕ) (vs : List (VerificationShare s.group)) where
  abbrev pub packages_of : List (Signer s) → List (KeyPackage s.group)
  packages_of = map (package_of s key mn vs)

  -- Round one of the participants, from the `i`-th, returns their nonces.
  abbrev pub IsDrawn : (ℕ → Result Bytes) → ℕ → List (Signer s) → Type 0
  IsDrawn random i [] = Unit {0}
  IsDrawn random i (p ∷ ps) =
      (round_one s (package_of s key mn vs p) (random (2 * i)) (random (2 * i + 1))
        ≡ ok (nonces_of s p, commitment_of s p))
      × IsDrawn random (i + 1) ps

  service_round_one-fill :
      (random : ℕ → Result Bytes) (i : ℕ) (m : List (Identifier × SigningNonces s.group))
      (ps : List (Signer s))
      → IsDrawn random i ps
      → service_round_one s random i m (packages_of ps)
        ≡ ok (fill s key mn ps m, commitments_of s ps)
  unfolding service_round_one
  service_round_one-fill random i m [] d = refl
  service_round_one-fill random i m (p ∷ ps) d =
      rw (d.0, service_round_one-fill random (i + 1) (insert p.identifier (nonces_of s p) m) ps d.1)

  round_two-package :
      (p : Signer s) (n : SigningNonces s.group) (msg : Bytes) (cs : CommitmentList s.group)
      → round_two s (package_of s key mn vs p) n msg cs
        ≡ round_two s (package_of s key mn [] p) n msg cs
  unfolding round_two
  round_two-package p n msg cs = refl

  service_round_two-sign_all :
      (m : List (Identifier × SigningNonces s.group)) (msg : Bytes) (cs : CommitmentList s.group)
      (ps : List (Signer s)) (shares : List (SignatureShare s.group))
      → All (HasNonces s key mn m) ps
      → sign_all s key mn msg cs ps ≡ ok shares
      → service_round_two s m msg cs (packages_of ps) ≡ ok shares
  unfolding service_round_two sign_all
  service_round_two-sign_all m msg cs [] shares h e = e
  service_round_two-sign_all m msg cs (p ∷ ps) shares h e =
      let (z, hz, e1) =
        bind-eq-ok (round_two s (package_of s key mn [] p) (nonces_of s p) msg cs) _ e in
      let (zs, hzs, e2) = bind-eq-ok (sign_all s key mn msg cs ps) _ e1 in
      rw
        (
          h.0,
          round_two-package p (nonces_of s p) msg cs,
          hz,
          service_round_two-sign_all m msg cs ps zs h.1 hzs,
        )
        e2

module _ (s : Suite) (l : IsPrimeOrder s.group) (key : s.Element) (mn : ℕ)
    (vs : List (VerificationShare s.group)) where
  absent-snoc :
      (i id : Identifier) (before : List Identifier)
      → contains i before ≡ false
      → id ≢ i
      → contains i (before ++ (id ∷ [])) ≡ false
  unfolding contains
  absent-snoc i id [] h n = ground arith
  absent-snoc i id (x ∷ xs) h n =
      let t : contains i xs ≡ false = ground arith in
      let rest = absent-snoc i id xs t n in ground arith

  absent-all :
      (before : List Identifier) (id : Identifier) (ps : List (Signer s))
      → All (λ (p : Signer s). contains p.identifier before ≡ false) ps
      → All (λ i. id ≢ i) (map (λ (p : Signer s). p.identifier) ps)
      → All (λ (p : Signer s). contains p.identifier (before ++ (id ∷ [])) ≡ false) ps
  absent-all before id [] a n = tt
  absent-all before id (p ∷ ps) a n =
      (absent-snoc p.identifier id before a.0 n.0, absent-all before id ps a.1 n.1)

  check_packages-Distinct :
      (before : List Identifier) (ps : List (Signer s))
      → All (λ (p : Signer s). contains p.identifier before ≡ false) ps
      → Distinct (map (λ (p : Signer s). p.identifier) ps)
      → check_packages s.group (some key) before (packages_of s key mn vs ps) ≡ ok tt
  unfolding check_packages
  check_packages-Distinct before [] a d = refl
  check_packages-Distinct before (p ∷ ps) a d =
      rw ((l.same_iff key key).1 refl, a.0)
        (check_packages-Distinct (before ++ (p.identifier ∷ [])) ps
          (absent-all before p.identifier ps a.1 d.0) d.1)

  absent-first :
      (id : Identifier) (ps : List (Signer s))
      → All (λ i. id ≢ i) (map (λ (p : Signer s). p.identifier) ps)
      → All (λ (p : Signer s). contains p.identifier (id ∷ []) ≡ false) ps
  unfolding contains
  absent-first id [] n = tt
  absent-first id (p ∷ ps) n = (absent-snoc p.identifier id [] refl n.0, absent-first id ps n.1)

  service_sign-steps :
      (random : ℕ → Result Bytes) (msg : Bytes) (q : Signer s) (qs : List (Signer s))
      (m : List (Identifier × SigningNonces s.group)) (cs : CommitmentList s.group)
      (shares : List (SignatureShare s.group)) (signature : Signature s.group)
      → validate_key_packages s.group (some (packages_of s key mn vs (q ∷ qs))) ≡ ok tt
      → ltb (length (q ∷ qs)) 2 ≡ false
      → service_round_one s random 0 [] (packages_of s key mn vs (q ∷ qs)) ≡ ok (m, cs)
      → service_round_two s m msg (insertion_sort s.group [] cs) (packages_of s key mn vs (q ∷ qs))
        ≡ ok shares
      → aggregate s
          (threshold_of s.group (length (q ∷ qs)) vs)
          (some key)
          (insertion_sort s.group [] cs)
          msg
          shares
        ≡ ok signature
      → service_sign s random (some (packages_of s key mn vs (q ∷ qs))) msg ≡ ok signature
  unfolding service_sign sign_packages
  service_sign-steps random msg q qs m cs shares signature hv h2 h1 hs ha =
      rw (hv, length-map (package_of s key mn vs) qs, h2, h1, hs, ha)

  -- At least two participants, with increasing 32-bit identifiers, hold shares of a secret key; they
  -- are at least as many as the coefficients of the sharing polynomial and as the threshold in their
  -- packages, and that threshold is the one that `Sign` takes from the first package. When round one
  -- returns their nonces, and unless the key, the sum of the nonces or the challenge is zero, the
  -- service's `Sign` returns a signature, which its `Verify` accepts under the public key.
  pub service_sign-service_verify :
      (random : ℕ → Result Bytes) (k : s.Scalar) (cs : List s.Scalar) (msg : Bytes) (q : Signer s)
      (qs : List (Signer s))
      → key ≡ s.scalar_base_mult k
      → mn ≡ threshold_of s.group (length (q ∷ qs)) vs
      → IsDrawn s key mn vs random 0 (q ∷ qs)
      → All (IsHonest s (k ∷ cs)) (q ∷ qs)
      → IsIncreasing (map (λ p. p.identifier) (q ∷ qs))
      → 2 ≤ length (q ∷ qs)
      → length (k ∷ cs) ≤ length (q ∷ qs)
      → mn ≤ length (q ∷ qs)
      → k ≢ s.new_scalar
      → sum ⦃f = scalars s.group l⦄
          (q ∷ qs)
          (nonce_of s (session_prefix s (s.scalar_base_mult k) (q ∷ qs) msg))
        ≢ s.new_scalar
      → session_challenge s
          (s.scalar_base_mult k)
          (sum ⦃f = scalars s.group l⦄
            (q ∷ qs)
            (nonce_of s (session_prefix s (s.scalar_base_mult k) (q ∷ qs) msg)))
          msg
        ≢ s.new_scalar
      → (signature : Signature s.group) × (service_sign s random
            (some (packages_of s key mn vs (q ∷ qs)))
            msg
          ≡ ok signature)
        × (service_verify s msg signature (some key) ≡ ok tt)
  unfolding validate_key_packages
  service_sign-service_verify random k cs msg q qs ek et drawn h i two n m nk nr nc =
      let public_key = s.scalar_base_mult k in
      let commitments = commitments_of s (q ∷ qs) in
      let e = session-verify s l k cs mn msg q qs h i n m nk nr nc in
      let (shares, es, e1) = bind-eq-ok (sign_all s public_key mn msg commitments (q ∷ qs)) _ e in
      let (signature, ea, ev) =
        bind-eq-ok (aggregate s mn (some public_key) commitments msg shares) _ e1 in
      let ids = IsIncreasing-Distinct (map (λ p. p.identifier) (q ∷ qs)) i in
      let sorted = sorted_commitments s l 0 0 (q ∷ qs) (q ∷ qs) (same_order (q ∷ qs)) i in
      let filled = fill-HasNonces s key mn (q ∷ qs) [] ids in
      let own = subst (λ t. sign_all s t mn msg commitments (q ∷ qs) ≡ ok shares) (sym ek) es in
      (
        signature,
        service_sign-steps random msg q qs (fill s key mn (q ∷ qs) []) commitments shares signature
            (check_packages-Distinct (q.identifier ∷ []) qs (absent-first q.identifier qs ids.0)
              ids.1)
            (le→ltb-false (length (q ∷ qs)) 2 two)
            (service_round_one-fill s key mn vs random 0 [] (q ∷ qs) drawn)
            (rw sorted
              (service_round_two-sign_all s key mn vs _ msg commitments (q ∷ qs) shares filled own))
            (rw (sorted, sym et, ek) ea),
        rw ek (service_verify-verify s msg signature (some public_key) ∙ ev),
      )
