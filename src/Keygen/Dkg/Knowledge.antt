-- ===== src/Keygen/Dkg/Knowledge.antt =====
-- The proof of knowledge: what it proves, and that `Part1` makes one that is accepted.
use go_frost.Common.{
  ℕ, ◌≡◌, ◌↔◌, ◌≢◌, refl, ap, ◌∙◌, some, List, [], ◌∷◌, ◌++◌, map, iff_trans, arith, length, ◌-◌,
  subst, ◌==◌, ◌≤◌,
}
use go_frost.Bytes.Inverse.{layout, identifier_bytes-layout}
use go_frost.Errors.{
  Result, ok, accept_if_iff, Error, bind-eq-ok, fail, panic, reject_if, parameter_error,
}
use go_frost.Group.{Suite, IsPrimeOrder}
use go_frost.Group.Scalars.{same-base, plus-base}
use go_frost.Polynomial.{random_scalars}
use go_frost.Types.{Identifier, Polynomial}
use go_frost.Keygen.Dkg.{
  Round1Package, Round1SecretPackage, proof_challenge, compute_proof_of_knowledge, make_packages,
  part1, check_proof, verify_proof_of_knowledge, validate_parameters,
}
use go_frost.Polynomial.Value.{random_scalars-length}

nonzero : (id : Identifier) (e : Error) → reject_if (id == 0) e ≡ ok tt → id ≢ 0
nonzero id e h = ground arith

validate_parameters-bounds : (mn mx : ℕ) → validate_parameters mn mx ≡ ok tt → (2 ≤ mn) × (mn ≤ mx)
unfolding validate_parameters
validate_parameters-bounds mn mx h = ground arith

module _ (s : Suite) (l : IsPrimeOrder s.group) where
  -- The challenge of a proof.
  abbrev pub challenge_of : Identifier → s.Element → s.Element → s.Scalar
  challenge_of id c r =
      s.hdkg
        ((layout s.byte_order (s.scalar_length - 4) id ++ s.element_bytes c) ++ s.element_bytes r)

  proof_challenge-hdkg :
      (id : Identifier) (c r : s.Element) → proof_challenge s id c r ≡ ok (challenge_of id c r)
  unfolding proof_challenge
  proof_challenge-hdkg id c r =
      rw (identifier_bytes-layout s.byte_order s.scalar_length id l.length_bound)

  -- A proof whose commitments are those of `a` and `k` is accepted exactly when its response is
  -- `k` and the challenge times `a`.
  pub verify_proof_of_knowledge-response :
      (id : Identifier) (a k z : s.Scalar) (cs : List s.Element)
      → (verify_proof_of_knowledge s id (
            some (record {
              commitment = s.scalar_base_mult a ∷ cs;
              proof_of_knowledge = record { r = some (s.scalar_base_mult k); z = some z };
            }))
          ≡ ok tt)
        ↔ (z ≡ s.add k (s.mul a (challenge_of id (s.scalar_base_mult a) (s.scalar_base_mult k))))
  unfolding verify_proof_of_knowledge check_proof
  verify_proof_of_knowledge-response id a k z cs =
      rw
        (
          proof_challenge-hdkg id (s.scalar_base_mult a) (s.scalar_base_mult k),
          l.mult-base a (challenge_of id (s.scalar_base_mult a) (s.scalar_base_mult k)),
          plus-base s.group l k,
        )
        (iff_trans (accept_if_iff _ _) (same-base s.group l z _))

  make_packages-parts :
      (random : Result s.Scalar) (id : Identifier) (mx mn : ℕ) (cs : Polynomial s.group)
      (secret : Round1SecretPackage s.group) (p : Round1Package s.group)
      → make_packages s random id mx mn cs ≡ ok (secret, p)
      → (p.commitment ≡ map s.scalar_base_mult secret.coefficients)
        × (secret.commitment ≡ p.commitment)
        × (secret.coefficients ≡ cs)
  unfolding make_packages
  make_packages-parts random id mx mn [] secret p h = cc
  make_packages-parts random id mx mn (a ∷ rest) secret p h =
      let (proof, hp, e) =
        bind-eq-ok (compute_proof_of_knowledge s random id a (s.scalar_base_mult a)) _ h in
      (cc e, cc e, cc e)

  make_packages-accepted :
      (random : Result s.Scalar) (id : Identifier) (mx mn : ℕ) (cs : Polynomial s.group)
      (secret : Round1SecretPackage s.group) (p : Round1Package s.group)
      → make_packages s random id mx mn cs ≡ ok (secret, p)
      → verify_proof_of_knowledge s id (some p) ≡ ok tt
  unfolding make_packages compute_proof_of_knowledge
  make_packages-accepted random id mx mn [] secret p h = cc
  make_packages-accepted (fail e) id mx mn (a ∷ rest) secret p h = cc
  make_packages-accepted panic id mx mn (a ∷ rest) secret p h = cc
  make_packages-accepted (ok k) id mx mn (a ∷ rest) secret p h =
      let c = challenge_of id (s.scalar_base_mult a) (s.scalar_base_mult k) in
      let q : Round1Package s.group = record {
        commitment = map s.scalar_base_mult (a ∷ rest);
        proof_of_knowledge = record {
          r = some (s.scalar_base_mult k);
          z = some (s.add k (s.mul a c));
        };
      } in
      let e : q ≡ p =
        cc (rw (proof_challenge-hdkg id (s.scalar_base_mult a) (s.scalar_base_mult k)) at h) in
      subst (λ t. verify_proof_of_knowledge s id (some t) ≡ ok tt) e
        ((verify_proof_of_knowledge-response id a k (s.add k (s.mul a c))
            (map s.scalar_base_mult rest)).1
          refl)

  -- Every package that `Part1` returns has a proof of knowledge that `VerifyProofOfKnowledge`
  -- accepts for its participant, one commitment for each of `minSigners` coefficients, and comes
  -- with these coefficients; and the parameters are valid.
  pub part1-accepted :
      (rng : ℕ → Result s.Scalar) (id : Identifier) (mx mn : ℕ)
      (secret : Round1SecretPackage s.group) (p : Round1Package s.group)
      → part1 s rng id mx mn ≡ ok (secret, p)
      → (verify_proof_of_knowledge s id (some p) ≡ ok tt)
        × (p.commitment ≡ map s.scalar_base_mult secret.coefficients)
        × (secret.commitment ≡ p.commitment)
        × (length secret.coefficients ≡ mn)
        × (id ≢ 0)
        × (2 ≤ mn)
        × (mn ≤ mx)
  unfolding part1
  part1-accepted rng id mx mn secret p h =
      let (u, hv, h1) = bind-eq-ok (validate_parameters mn mx) _ h in
      let (u2, hz, h2) = bind-eq-ok (reject_if (id == 0) _) _ h1 in
      let (cs, hc, h3) =
        bind-eq-ok
          (random_scalars s.group
            (parameter_error "coefficients" "failed to generate random coefficient") rng 0 mn)
          _ h2 in
      let (e1, e2, e3) = make_packages-parts (rng mn) id mx mn cs secret p h3 in
      let (b1, b2) = validate_parameters-bounds mn mx hv in
      (
        make_packages-accepted (rng mn) id mx mn cs secret p h3,
        e1,
        e2,
        ap length e3 ∙ random_scalars-length s.group _ rng 0 mn hc,
        nonzero id _ hz,
        b1,
        b2,
      )
