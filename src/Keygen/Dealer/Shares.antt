-- ===== src/Keygen/Dealer/Shares.antt =====
-- What the trusted dealer hands out.
use go_frost.Common.{
  ℕ, ◌-◌, ◌≤◌, ◌≡◌, ◌≢◌, refl, ap, false, Option, some, List, [], ◌∷◌, map, length, All-imp, All,
  Distinct, arith,
}
use go_frost.Encoding.{identifier_to_scalar}
use go_frost.Errors.{Result, ok}
use go_frost.Group.{Group, IsPrimeOrder}
use go_frost.Polynomial.{evaluate, generate}
use go_frost.Polynomial.Value.{generate-length}
use go_frost.Types.{Identifier, Polynomial, VerificationShare, KeyPackage}
use go_frost.Keygen.Vss.{create_commitments, verify_share}
use go_frost.Keygen.Vss.Accepts.{verify_share-evaluate}
use go_frost.Keygen.Dealer.{
  contains, check_ids, check_parameters, choose_secret, key_packages, generate_shares,
}

contains-cons :
    (i id : Identifier) (seen : List Identifier)
    → contains i (id ∷ seen) ≡ false
    → (id ≢ i) × (contains i seen ≡ false)
unfolding contains
contains-cons i id seen h = ground arith

check_ids-accepts :
    (seen ids : List Identifier)
    → check_ids seen ids ≡ ok tt
    → All (λ i. (i ≢ 0) × (contains i seen ≡ false)) ids × Distinct ids
unfolding check_ids
check_ids-accepts seen [] h = (tt, tt)
check_ids-accepts seen (id ∷ ids) h =
    let (a, d) = check_ids-accepts (id ∷ seen) ids (ground arith) in
    (
      ((ground arith, ground arith), All-imp ids (λ i p. (p.0, (contains-cons i id seen p.1).1)) a),
      (All-imp ids (λ i p. (contains-cons i id seen p.1).0) a, d),
    )

check_parameters-accepts :
    (mn mx : ℕ) (ids : List Identifier)
    → check_parameters mn mx ids ≡ ok tt
    → (2 ≤ mn) × (mn ≤ mx) × (length ids ≡ mx) × (check_ids [] ids ≡ ok tt)
unfolding check_parameters
check_parameters-accepts mn mx ids h = ground arith

module _ (g : Group) where
  key_packages-nil :
      (poly : Polynomial g) (pk : g.Element) (shares : List (VerificationShare g)) (mn mx : ℕ)
      (ps : List (KeyPackage g))
      → key_packages g poly pk shares mn mx [] ≡ ok ps
      → ps ≡ []
  unfolding key_packages
  key_packages-nil poly pk shares mn mx ps h = cc

  key_packages-cons :
      (poly : Polynomial g) (pk : g.Element) (shares : List (VerificationShare g)) (mn mx : ℕ)
      (id : Identifier) (ids : List Identifier) (ps : List (KeyPackage g))
      → key_packages g poly pk shares mn mx (id ∷ ids) ≡ ok ps
      → (x : g.Scalar) × (rest : List (KeyPackage g)) × (identifier_to_scalar g id ≡ ok x)
        × (key_packages g poly pk shares mn mx ids ≡ ok rest)
        × (ps
            ≡ record {
              identifier = id;
              secret_share = evaluate g poly x;
              group_public_key = some pk;
              verification_shares = shares;
              min_signers = mn;
              max_signers = mx;
            }
              ∷ rest)
  unfolding key_packages
  key_packages-cons poly pk shares mn mx id ids ps h = ground arith

  generate_shares-steps :
      (rng : ℕ → Result g.Scalar) (secret : Option g.Scalar) (mn mx : ℕ) (ids : List Identifier)
      (ps : List (KeyPackage g)) (pk : g.Element)
      → generate_shares g rng secret mn mx ids ≡ ok (ps, pk)
      → (s : g.Scalar) × (i : ℕ) × (poly : Polynomial g) × (shares : List (VerificationShare g))
        × (check_parameters mn mx ids ≡ ok tt)
        × (choose_secret g rng secret ≡ ok (s, i))
        × (generate g rng i (some s) (mn - 1) ≡ ok poly)
        × (create_commitments g poly ≡ ok shares)
        × (key_packages g poly (g.scalar_base_mult s) shares mn mx ids ≡ ok ps)
        × (pk ≡ g.scalar_base_mult s)
  unfolding generate_shares
  generate_shares-steps rng secret mn mx ids ps pk h = ground arith

  choose_secret-given :
      (rng : ℕ → Result g.Scalar) (secret : Option g.Scalar) (t s : g.Scalar) (i : ℕ)
      → secret ≡ some t
      → choose_secret g rng secret ≡ ok (s, i)
      → s ≡ t
  unfolding choose_secret
  choose_secret-given rng secret t s i q h = ground arith

module _ (g : Group) (l : IsPrimeOrder g) where
  -- The package of a participant under the sharing polynomial.
  pub record IsDealt (poly : Polynomial g) (pk : g.Element) (k : KeyPackage g) : Type 0 where
    pub x : g.Scalar
    pub has_scalar : identifier_to_scalar g k.identifier ≡ ok x
    pub share : k.secret_share ≡ evaluate g poly x
    pub public_key : k.group_public_key ≡ some pk
    pub verifies : verify_share g k.identifier k.secret_share k.verification_shares ≡ ok tt

  key_packages-IsDealt :
      (poly : Polynomial g) (pk : g.Element) (shares : List (VerificationShare g)) (mn mx : ℕ)
      (ids : List Identifier) (ps : List (KeyPackage g))
      → create_commitments g poly ≡ ok shares
      → All (λ i. i ≢ 0) ids
      → key_packages g poly pk shares mn mx ids ≡ ok ps
      → (map (λ k. k.identifier) ps ≡ ids) × All (IsDealt poly pk) ps
  key_packages-IsDealt poly pk shares mn mx [] ps c z h =
      rw (key_packages-nil g poly pk shares mn mx ps h) (refl, tt)
  key_packages-IsDealt poly pk shares mn mx (id ∷ ids) ps c z h =
      let (x, rest, p, q, e) = key_packages-cons g poly pk shares mn mx id ids ps h in
      let (ei, d) = key_packages-IsDealt poly pk shares mn mx ids rest c z.1 q in
      rw e (
        ap (◌∷◌ id) ei,
        (
          record {
            x = x;
            has_scalar = p;
            share = refl;
            public_key = refl;
            verifies = (verify_share-evaluate g l poly shares id x _ c z.0 p).1 refl;
          },
          d,
        ),
      )

  -- When the dealer succeeds, there is one polynomial, with `minSigners` coefficients and the given
  -- secret, if any, as its constant term, such that the packages are for the given participants in
  -- their order, who are distinct, not zero, and `maxSigners` in number; each package holds the
  -- polynomial's value at its participant, a share that `VerifyShare` accepts; and the public key
  -- is the commitment to the constant term.
  pub generate_shares-IsDealt :
      (rng : ℕ → Result g.Scalar) (secret : Option g.Scalar) (mn mx : ℕ) (ids : List Identifier)
      (ps : List (KeyPackage g)) (pk : g.Element)
      → generate_shares g rng secret mn mx ids ≡ ok (ps, pk)
      → (s : g.Scalar) × (rest : Polynomial g) × ((t : g.Scalar) → secret ≡ some t → s ≡ t)
        × (pk ≡ g.scalar_base_mult s)
        × (length (s ∷ rest) ≡ mn)
        × (2 ≤ mn)
        × (mn ≤ mx)
        × (length ids ≡ mx)
        × Distinct ids
        × (map (λ k. k.identifier) ps ≡ ids)
        × All (IsDealt (s ∷ rest) pk) ps
  generate_shares-IsDealt rng secret mn mx ids ps pk h =
      let (s, i, poly, shares, hp, hs, hg, hc, hk, e) =
        generate_shares-steps g rng secret mn mx ids ps pk h in
      let (b2, bm, bl, hi) = check_parameters-accepts mn mx ids hp in
      let (z, d) = check_ids-accepts [] ids hi in
      let (rest, er, el) = generate-length g rng i s (mn - 1) hg in
      let (ei, dealt) =
        key_packages-IsDealt (s ∷ rest) pk shares mn mx ids ps (rw er at hc)
          (All-imp ids (λ i p. p.0) z) (rw (er, ← e) at hk) in
      (
        s,
        rest,
        (λ t q. choose_secret-given g rng secret t s i q hs),
        e,
        omega arith,
        b2,
        bm,
        bl,
        d,
        ei,
        dealt,
      )
