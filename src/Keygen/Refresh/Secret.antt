-- ===== src/Keygen/Refresh/Secret.antt =====
-- A refresh keeps the secret: the new shares belong to a polynomial with the same constant term.
use go_frost.Common.{
  ℕ, ◌-◌, ◌≡◌, refl, sym, ap, ap₂, ◌∙◌, suc, some, List, [], ◌∷◌, map, length, All, ◌==◌, ==_refl,
  true, subst, ltb, look_up, insert,
}
use go_frost.Algebra.{Field, ◌⊕◌}
use go_frost.Algebra.Polynomials.{poly_value}
use go_frost.Commitments.{evaluate_commitment_polynomial, evaluate_commitment_polynomial-base}
use go_frost.Encoding.{identifier_to_scalar}
use go_frost.Errors.{Result, ok, bind-eq-ok, wrap-eq-ok, wrap, require, reject_if}
use go_frost.Group.{Group, IsPrimeOrder}
use go_frost.Group.Scalars.{scalars, same-base}
use go_frost.Polynomial.{evaluate, random_scalars}
use go_frost.Polynomial.Value.{evaluate-poly_value, random_scalars-length}
use go_frost.Types.{Identifier, Polynomial, KeyPackage}
use go_frost.Keygen.Dkg.{PublicKeyPackage}
use go_frost.Keygen.Dkg.Joint.{add_terms, poly_value-add_terms}
use go_frost.Keygen.Refresh.{
  RefreshShare, refresh_loop, compute_refreshing_shares, update_shares, apply_refresh_share,
}

module _ (g : Group) (l : IsPrimeOrder g) where
  instance abbrev field : Field g.Scalar
  field = scalars g l

  -- A share of the polynomial with constant term zero and the coefficients `rest`.
  pub record IsRefresh (rest : List g.Scalar) (r : RefreshShare g) : Type 0 where
    pub x : g.Scalar
    pub has_scalar : identifier_to_scalar g r.identifier ≡ ok x
    pub has_share : r.share ≡ some (evaluate g (g.new_scalar ∷ rest) x)
    pub has_commitment : r.commitment ≡ map g.scalar_base_mult rest

  -- The polynomial with the coefficients `rest` added behind the constant term.
  abbrev pub refreshed : g.Scalar → List g.Scalar → List g.Scalar → Polynomial g
  refreshed c cs rest = c ∷ add_terms ⦃f = scalars g l⦄ cs rest

  evaluate-refreshed :
      (c : g.Scalar) (cs rest : List g.Scalar) (x : g.Scalar)
      → length cs ≡ length rest
      → evaluate g (c ∷ cs) x ⊕ evaluate g (g.new_scalar ∷ rest) x
        ≡ evaluate g (refreshed c cs rest) x
  evaluate-refreshed c cs rest x e =
      ap₂ g.add (evaluate-poly_value g l (c ∷ cs) x)
        (evaluate-poly_value g l (g.new_scalar ∷ rest) x)
      ∙ sym (
          poly_value-add_terms (suc (length cs)) (c ∷ cs) (g.new_scalar ∷ rest) x refl
            (ap suc (sym e)))
      ∙ ap (λ t. poly_value (t ∷ add_terms cs rest) x) (field.add-zero c)
      ∙ sym (evaluate-poly_value g l (refreshed c cs rest) x)

  evaluated :
      (rest : List g.Scalar) (x : g.Scalar)
      → evaluate_commitment_polynomial g (g.identity ∷ map g.scalar_base_mult rest) x
        ≡ ok (g.scalar_base_mult (evaluate g (g.new_scalar ∷ rest) x))
  evaluated rest x =
      ap (λ e. evaluate_commitment_polynomial g (e ∷ map g.scalar_base_mult rest) x)
        (sym l.base-zero)
      ∙ evaluate_commitment_polynomial-base g l (g.new_scalar ∷ rest) x
      ∙ ap (λ v. ok (g.scalar_base_mult v)) (sym (evaluate-poly_value g l (g.new_scalar ∷ rest) x))

  -- `ApplyRefreshShare` accepts its participant's refresh share. If the old share was the value of
  -- a polynomial with as many coefficients, then the new one is the value of a polynomial with the
  -- same constant term; the group key and the parameters stay.
  pub apply_refresh_share-refreshed :
      (rest : List g.Scalar) (r : RefreshShare g) (h : IsRefresh rest r) (kp : KeyPackage g)
      (c : g.Scalar) (cs : List g.Scalar)
      → r.identifier ≡ kp.identifier
      → kp.secret_share ≡ evaluate g (c ∷ cs) h.x
      → length cs ≡ length rest
      → apply_refresh_share g r (some kp)
        ≡ ok (record {
          identifier = kp.identifier;
          secret_share = evaluate g (refreshed c cs rest) h.x;
          group_public_key = kp.group_public_key;
          verification_shares =
              update_shares g r.identifier
                (g.scalar_base_mult (evaluate g (refreshed c cs rest) h.x))
                kp.verification_shares;
          min_signers = kp.min_signers;
          max_signers = kp.max_signers;
        })
  unfolding apply_refresh_share
  apply_refresh_share-refreshed rest r h kp c cs i s e =
      let v = evaluate g (g.new_scalar ∷ rest) h.x in
      let t : evaluate g (c ∷ cs) h.x ⊕ v ≡ evaluate g (refreshed c cs rest) h.x =
        evaluate-refreshed c cs rest h.x e in
      let m : g.same (g.scalar_base_mult v) (g.scalar_base_mult v) ≡ true =
        (same-base g l v v).1 refl in
      let q : (r.identifier == kp.identifier) ≡ true = rw i (==_refl kp.identifier) in
      rw (h.has_share, q, h.has_scalar, h.has_commitment, evaluated rest h.x, m, s, t)

  refresh_loop-IsRefresh :
      (rest : List g.Scalar) (current acc : List (Identifier × g.Element)) (ids : List Identifier)
      (shares : List (RefreshShare g)) (all : List (Identifier × g.Element))
      → refresh_loop g rest current acc ids ≡ ok (shares, all)
      → All (IsRefresh rest) shares × (map (λ r. r.identifier) shares ≡ ids)
  unfolding refresh_loop
  refresh_loop-IsRefresh rest current acc [] shares all h =
      let e : [] ≡ shares = cc h in
      subst (λ t. All (IsRefresh rest) t × (map (λ r. r.identifier) t ≡ [])) e (tt, refl)
  refresh_loop-IsRefresh rest current acc (id ∷ ids) shares all h =
      let (x, hx, h1) = bind-eq-ok (wrap _ (identifier_to_scalar g id)) _ h in
      let (old, ho, h2) = bind-eq-ok (require (look_up id current) _) _ h1 in
      let (re, hr, h3) = bind-eq-ok (evaluate_commitment_polynomial g _ x) _ h2 in
      let (later, hl, h4) =
        bind-eq-ok (refresh_loop g rest current (insert id (g.plus old re) acc) ids) _ h3 in
      let (hs, hi) =
        refresh_loop-IsRefresh rest current (insert id (g.plus old re) acc) ids later.0 later.1
          hl in
      let r : RefreshShare g = record {
        identifier = id;
        share = some (evaluate g (g.new_scalar ∷ rest) x);
        commitment = map g.scalar_base_mult rest;
      } in
      let e : r ∷ later.0 ≡ shares = cc h4 in
      subst (λ t. All (IsRefresh rest) t × (map (λ r. r.identifier) t ≡ id ∷ ids)) e
        (
          (
            record {
              x = x;
              has_scalar = wrap-eq-ok _ (identifier_to_scalar g id) hx;
              has_share = refl;
              has_commitment = refl;
            },
            hs,
          ),
          ap (◌∷◌ id) hi,
        )

  -- When `ComputeRefreshingShares` succeeds, there are `minSigners - 1` coefficients such that its
  -- shares, for the given identifiers in their order, are those of the polynomial that has them
  -- after a zero constant term; and the group key is the old one.
  pub compute_refreshing_shares-IsRefresh :
      (rng : ℕ → Result g.Scalar) (current : PublicKeyPackage g) (mx mn : ℕ) (ids : List Identifier)
      (shares : List (RefreshShare g)) (new : PublicKeyPackage g)
      → compute_refreshing_shares g rng (some current) mx mn ids ≡ ok (shares, new)
      → (rest : List g.Scalar) × (length rest ≡ mn - 1)
        × All (IsRefresh rest) shares
        × (map (λ r. r.identifier) shares ≡ ids)
        × (new.verifying_key ≡ current.verifying_key)
  unfolding compute_refreshing_shares
  compute_refreshing_shares-IsRefresh rng current mx mn [] shares new h = cc
  compute_refreshing_shares-IsRefresh rng current mx mn (id ∷ ids) shares new h =
      let (u1, _, h1) = bind-eq-ok (reject_if (ltb mn 2) _) _ h in
      let (u2, _, h2) = bind-eq-ok (reject_if (ltb mx mn) _) _ h1 in
      let (rest, hr, h3) = bind-eq-ok (random_scalars g _ rng 0 (mn - 1)) _ h2 in
      let (found, hl, h4) =
        bind-eq-ok (refresh_loop g rest current.verifying_shares [] (id ∷ ids)) _ h3 in
      let (hs, hi) =
        refresh_loop-IsRefresh rest current.verifying_shares [] (id ∷ ids) found.0 found.1 hl in
      let e : found.0 ≡ shares = cc h4 in
      (
        rest,
        random_scalars-length g _ rng 0 (mn - 1) hr,
        subst (All (IsRefresh rest)) e hs,
        ap (map (λ r. r.identifier)) (sym e) ∙ hi,
        cc h4,
      )
