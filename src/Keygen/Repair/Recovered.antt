-- ===== src/Keygen/Repair/Recovered.antt =====
-- The three steps of the repair together give back the value of the sharing polynomial at the lost
-- participant.
use go_frost.Common.{
  ℕ, ◌<◌, ◌^◌, ◌≤◌, ◌≡◌, refl, sym, ap, ap₂, ◌∙◌, inl, inr, none, some, Option, List, [], ◌∷◌, map,
  length, All, Distinct, Elem, true, false, look_up, Option-cases, All-imp, ltb, All-zip, arith,
  subst, length-map,
}
use go_frost.Algebra.{Field, ◌⊗◌, ◌⊕◌, zero-add}
use go_frost.Algebra.Sums.{sum, sum_swap, sum_congr, sum-map}
use go_frost.Algebra.Polynomials.{poly_value}
use go_frost.Algebra.Interpolation.{interpolation}
use go_frost.Encoding.{identifier_to_scalar}
use go_frost.Errors.{Result, ok, bind-eq-ok, reject_if, accept_if}
use go_frost.Group.{Group, IsPrimeOrder}
use go_frost.Group.Scalars.{scalars, sub-zero, same-base}
use go_frost.Polynomial.{evaluate}
use go_frost.Types.{Identifier, KeyPackage, Polynomial}
use go_frost.Keygen.Repair.{
  check_helpers, helper_scalars, compute_lagrange_coefficient, repair_share_step1, add_values,
  repair_share_step2, check_recovered, repair_share_step3,
}
use go_frost.Keygen.Repair.Weights.{weight_at, compute_lagrange-weight, compute_lagrange-Elem}
use go_frost.Keygen.Repair.Deltas.{delta, delta_loop-sum}
use go_frost.Polynomial.Value.{evaluate-poly_value}
use go_frost.Encoding.Scalars.{HasScalar-Distinct}
use go_frost.Commitments.{evaluate_commitment_polynomial-base}

module _ (g : Group) where
  -- What one helper does: the run of its first step, whose deltas it sends to the helpers.
  pub record Run : Type 0 where
    pub key_package : KeyPackage g
    pub x : g.Scalar
    pub deltas : List (Identifier × g.Scalar)

  abbrev and_more : Option g.Scalar → List g.Scalar → List g.Scalar
  and_more none ds = ds
  and_more (some d) ds = d ∷ ds

  -- The deltas that the helper `id` receives.
  abbrev pub received : Identifier → List Run → List g.Scalar
  received id [] = []
  received id (r ∷ rs) = and_more (look_up id r.deltas) (received id rs)

  -- The run starts from the helper's share of `poly`, and its first step succeeds.
  pub record IsRun (poly : Polynomial g) (helpers : List Identifier) (lost : Identifier) (r : Run)
      : Type 0 where
    pub rng : ℕ → Result g.Scalar
    pub has_scalar : identifier_to_scalar g r.key_package.identifier ≡ ok r.x
    pub has_share : r.key_package.secret_share ≡ evaluate g poly r.x
    pub ran : repair_share_step1 g rng helpers (some r.key_package) lost ≡ ok r.deltas

module _ (g : Group) (l : IsPrimeOrder g) where
  instance abbrev field : Field g.Scalar
  field = scalars g l

  add_values-sum : (s : g.Scalar) (vs : List g.Scalar) → add_values g s vs ≡ s ⊕ sum vs (λ v. v)
  unfolding add_values
  add_values-sum s [] = sym (field.add-zero s)
  add_values-sum s (v ∷ vs) = add_values-sum (g.add s v) vs ∙ field.add_assoc s v _

  received-sum :
      (id : Identifier) (rs : List (Run g))
      → sum (received g id rs) (λ v. v) ≡ sum rs (λ r. delta g r.deltas id)
  received-sum id [] = refl
  received-sum id (r ∷ rs) = elim (Option-cases (look_up id r.deltas)) [
    | inl e ↦ rw e (received-sum id rs ∙ sym (zero-add _))
    | inr (d, e) ↦ rw e (ap (g.add d) (received-sum id rs))
  ]

  step2-sum :
      (ds : List g.Scalar) {s : g.Scalar} → repair_share_step2 g ds ≡ some s → s ≡ sum ds (λ v. v)
  unfolding repair_share_step2
  step2-sum [] h = cc
  step2-sum (d ∷ ds) h = sym (cc h) ∙ add_values-sum d ds

  sigmas-sum :
      (rs : List (Run g)) (ids : List Identifier) (sigmas : List g.Scalar)
      → map (λ id. repair_share_step2 g (received g id rs)) ids ≡ map some sigmas
      → sum sigmas (λ v. v) ≡ sum ids (λ id. sum rs (λ r. delta g r.deltas id))
  sigmas-sum rs [] [] h = refl
  sigmas-sum rs [] (s ∷ ss) h = cc
  sigmas-sum rs (id ∷ ids) [] h = cc
  sigmas-sum rs (id ∷ ids) (s ∷ ss) h =
      ap₂ g.add (step2-sum (received g id rs) (cc h) ∙ received-sum id rs)
        (sigmas-sum rs ids ss (cc h))

  -- What a successful first step says.
  step1-sum :
      (rng : ℕ → Result g.Scalar) (ids : List Identifier) (kp : KeyPackage g) (lost : Identifier)
      (xs : List g.Scalar) (xi x : g.Scalar) (m : List (Identifier × g.Scalar))
      → helper_scalars g ids ≡ ok xs
      → identifier_to_scalar g kp.identifier ≡ ok xi
      → identifier_to_scalar g lost ≡ ok x
      → Distinct ids
      → Distinct xs
      → repair_share_step1 g rng ids (some kp) lost ≡ ok m
      → sum ids (delta g m) ≡ weight_at g l xs x xi ⊗ kp.secret_share
  unfolding repair_share_step1
  step1-sum rng ids kp lost xs xi x m hxs hxi hx u ux h =
      let (_, _, h1) = bind-eq-ok (reject_if (ltb (length ids) 2) _) _ h in
      let (self, _, h2) = bind-eq-ok (check_helpers kp.identifier [] false ids) _ h1 in
      let (_, _, h3) = bind-eq-ok (accept_if self _) _ h2 in
      let (w, hw, h4) =
        bind-eq-ok (compute_lagrange_coefficient g xs x xi) _ (rw (hxs, hxi, hx) at h3) in
      let mem : Elem xi xs = compute_lagrange-Elem g l xs x xi w hw in
      let e : weight_at g l xs x xi ≡ w = cc (compute_lagrange-weight g l xs x xi mem ux, hw) in
      delta_loop-sum g l rng (g.mul w kp.secret_share) 0 [] g.new_scalar ids m h4 u
      ∙ sub-zero g l _
      ∙ ap (λ t. g.mul t kp.secret_share) (sym e)

  helper_scalars-map :
      (poly : Polynomial g) (helpers : List Identifier) (lost : Identifier) (rs : List (Run g))
      → All (IsRun g poly helpers lost) rs
      → helper_scalars g (map (λ r. r.key_package.identifier) rs) ≡ ok (map (λ r. r.x) rs)
  unfolding helper_scalars
  helper_scalars-map poly helpers lost [] h = refl
  helper_scalars-map poly helpers lost (r ∷ rs) h =
      rw (h.0.has_scalar, helper_scalars-map poly helpers lost rs h.1)

  -- The terms of the interpolation.
  contributions :
      (poly : Polynomial g) (ids : List Identifier) (lost : Identifier) (xs : List g.Scalar)
      (x : g.Scalar) (rs : List (Run g))
      → helper_scalars g ids ≡ ok xs
      → identifier_to_scalar g lost ≡ ok x
      → Distinct ids
      → Distinct xs
      → All (IsRun g poly ids lost) rs
      → sum rs (λ r. sum ids (delta g r.deltas))
        ≡ sum rs (λ r. poly_value poly r.x ⊗ weight_at g l xs x r.x)
  contributions poly ids lost xs x rs hxs hx u ux h = sum_congr rs _ _ (
      All-imp rs
        (λ r k.
          step1-sum k.rng ids r.key_package lost xs r.x x r.deltas hxs k.has_scalar hx u ux k.ran
          ∙ l.mul_comm _ _
          ∙ ap (λ t. t ⊗ weight_at g l xs x r.x) (k.has_share ∙ evaluate-poly_value g l poly r.x))
        h)

  -- The sigmas sum to the value of the polynomial at the lost participant.
  sigmas-value :
      (poly : Polynomial g) (lost : Identifier) (x : g.Scalar) (rs : List (Run g))
      (sigmas : List g.Scalar)
      → identifier_to_scalar g lost ≡ ok x
      → All (IsRun g poly (map (λ r. r.key_package.identifier) rs) lost) rs
      → Distinct (map (λ r. r.key_package.identifier) rs)
      → All (λ r. r.key_package.identifier < 2 ^ 32) rs
      → length poly ≤ length rs
      → map (λ id. repair_share_step2 g (received g id rs)) (map (λ r. r.key_package.identifier) rs)
        ≡ map some sigmas
      → sum sigmas (λ v. v) ≡ evaluate g poly x
  sigmas-value poly lost x rs sigmas hx h u b enough e =
      let ids = map (λ r. r.key_package.identifier) rs in
      let xs = map (λ r. r.x) rs in
      let ux : Distinct xs =
        HasScalar-Distinct g l (λ r. r.key_package.identifier) (λ r. r.x) rs
          (All-zip rs (λ r p q. (p, q.has_scalar)) b h) u in
      sigmas-sum rs ids sigmas e
      ∙ sum_swap ids rs (λ id r. delta g r.deltas id)
      ∙ contributions poly ids lost xs x rs (helper_scalars-map poly ids lost rs h) hx u ux h
      ∙ sym (sum-map (λ r. r.x) rs (λ xi. poly_value poly xi ⊗ weight_at g l xs x xi))
      ∙ interpolation g.equal l.equal_iff xs poly x ux
          (subst (λ n. length poly ≤ n) (sym (length-map (λ r. r.x) rs)) enough)
      ∙ sym (evaluate-poly_value g l poly x)

  check_recovered-ok :
      (poly : Polynomial g) (lost : Identifier) (x : g.Scalar)
      → identifier_to_scalar g lost ≡ ok x
      → check_recovered g (evaluate g poly x) lost (map g.scalar_base_mult poly) ≡ ok tt
  unfolding check_recovered
  check_recovered-ok [] lost x hx = refl
  check_recovered-ok (c ∷ cs) lost x hx =
      let e = evaluate_commitment_polynomial-base g l (c ∷ cs) x in
      let m : g.same (g.scalar_base_mult (evaluate g (c ∷ cs) x))
            (g.scalar_base_mult (poly_value (c ∷ cs) x))
          ≡ true =
        (same-base g l _ _).1 (evaluate-poly_value g l (c ∷ cs) x) in
      rw (hx, e, m)

  step3-sum :
      (sigmas : List g.Scalar) (lost : Identifier) (pk : Option g.Element)
      (commitment : List g.Element) (v : g.Scalar)
      → 1 ≤ length sigmas
      → sum sigmas (λ s. s) ≡ v
      → check_recovered g v lost commitment ≡ ok tt
      → repair_share_step3 g sigmas lost pk commitment
        ≡ ok (record {
          identifier = lost;
          secret_share = v;
          group_public_key = pk;
          verification_shares = [];
          min_signers = 0;
          max_signers = 0;
        })
  unfolding repair_share_step3
  step3-sum [] lost pk commitment v b e h = absurd (omega arith)
  step3-sum (s ∷ ss) lost pk commitment v b e h =
      let q : add_values g s ss ≡ v = add_values-sum s ss ∙ e in rw (q, h)

  -- Helpers with distinct 32-bit identifiers, at least as many as the sharing polynomial has
  -- coefficients, each run the first step from their shares of it; each sums in the second step the
  -- deltas for it. Then the third step, with the commitments to the polynomial, gives the lost
  -- participant the polynomial's value at its identifier, and accepts it.
  pub repair_share-evaluate :
      (poly : Polynomial g) (lost : Identifier) (pk : Option g.Element) (x : g.Scalar)
      (rs : List (Run g)) (sigmas : List g.Scalar)
      → identifier_to_scalar g lost ≡ ok x
      → All (IsRun g poly (map (λ r. r.key_package.identifier) rs) lost) rs
      → Distinct (map (λ r. r.key_package.identifier) rs)
      → All (λ r. r.key_package.identifier < 2 ^ 32) rs
      → length poly ≤ length rs
      → 1 ≤ length sigmas
      → map (λ id. repair_share_step2 g (received g id rs)) (map (λ r. r.key_package.identifier) rs)
        ≡ map some sigmas
      → repair_share_step3 g sigmas lost pk (map g.scalar_base_mult poly)
        ≡ ok (record {
          identifier = lost;
          secret_share = evaluate g poly x;
          group_public_key = pk;
          verification_shares = [];
          min_signers = 0;
          max_signers = 0;
        })
  repair_share-evaluate poly lost pk x rs sigmas hx h u b enough some_sigma e =
      step3-sum sigmas lost pk (map g.scalar_base_mult poly) (evaluate g poly x) some_sigma
        (sigmas-value poly lost x rs sigmas hx h u b enough e) (check_recovered-ok poly lost x hx)
