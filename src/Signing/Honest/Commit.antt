-- ===== src/Signing/Honest/Commit.antt =====
-- The binding factors and the group commitment of an honest session.
use go_frost.Common.{
  ◌≡◌, ◌≢◌, refl, sym, ap, ◌∙◌, ◌==◌, Bool-cases, ==→eq, ==_refl, some, List, [], ◌∷◌, ◌++◌, map,
  All, Elem, inl, inr, All-of_Elem, subst,
}
use go_frost.Algebra.{Field, ◌⊕◌, ◌⊗◌, zero-add}
use go_frost.Algebra.Sums.{sum}
use go_frost.Bytes.{Bytes}
use go_frost.Bytes.Inverse.{identifier_bytes-layout}
use go_frost.Encoding.Total.{IsPresent, encode-present}
use go_frost.Errors.{ok, Error}
use go_frost.Group.{Suite, IsPrimeOrder}
use go_frost.Group.Scalars.{scalars, plus-base, is_identity_false, or_else}
use go_frost.Types.{Identifier, BindingFactorList, Polynomial}
use go_frost.Signing.Binding.{binding_loop, compute_binding_factors, get_binding_factor}
use go_frost.Signing.GroupCommitment.{
  require_point, find_factor, group_loop, compute_group_commitment,
}
use go_frost.Signing.Honest.{
  session_prefix, Signer, IsHonest, commitments_of, factor_at, factor_of, nonce_of,
}

module _ (s : Suite) (l : IsPrimeOrder s.group) where
  instance abbrev field : Field s.Scalar
  field = scalars s.group l

  commitments-IsPresent : (ps : List (Signer s)) → All (IsPresent s.group l) (commitments_of s ps)
  commitments-IsPresent [] = tt
  commitments-IsPresent (p ∷ ps) = ((λ e. cc, λ e. cc), commitments-IsPresent ps)

  binding_loop-factors :
      (prefix : Bytes) (ps : List (Signer s))
      → binding_loop s prefix (commitments_of s ps) ≡ ok (map (factor_of s prefix) ps)
  unfolding binding_loop
  binding_loop-factors prefix [] = refl
  binding_loop-factors prefix (p ∷ ps) = rw (
    identifier_bytes-layout s.byte_order s.scalar_length p.identifier l.length_bound,
    binding_loop-factors prefix ps,
  )

  -- Every factor is computed from the session's prefix.
  pub compute_binding_factors-prefix :
      (key : s.Element) (p : Signer s) (ps : List (Signer s)) (msg : Bytes)
      → compute_binding_factors s (some key) (commitments_of s (p ∷ ps)) msg
        ≡ ok (map (factor_of s (session_prefix s key (p ∷ ps) msg)) (p ∷ ps))
  unfolding compute_binding_factors
  compute_binding_factors-prefix key p ps msg =
      let cs = commitments_of s (p ∷ ps) in
      let (encoded, e) = encode-present s.group l cs (commitments-IsPresent (p ∷ ps)) in
      let start = s.element_bytes key ++ s.h4 msg in
      subst
        (λ prefix.
          compute_binding_factors s (some key) cs msg ≡ ok (map (factor_of s prefix) (p ∷ ps)))
        (ap (λ r. start ++ s.h5 (or_else [] r)) (sym e))
        (rw e (binding_loop-factors (start ++ s.h5 encoded) (p ∷ ps)))

  pub get_binding_factor-factor :
      (prefix : Bytes) (ps : List (Signer s)) (p : Signer s)
      → Elem p ps
      → get_binding_factor s (map (factor_of s prefix) ps) p.identifier
        ≡ ok (factor_at s prefix p.identifier)
  unfolding get_binding_factor
  get_binding_factor-factor prefix [] p m = absurd m
  get_binding_factor-factor prefix (q ∷ ps) p (inl e) =
      rw (ap (λ (t : Signer s). t.identifier == p.identifier) (sym e) ∙ ==_refl p.identifier)
        (ap (λ (t : Signer s). ok (factor_at s prefix t.identifier)) (sym e))
  get_binding_factor-factor prefix (q ∷ ps) p (inr m) =
      elim (Bool-cases (q.identifier == p.identifier)) [
        | inl e ↦ rw e (ap (λ i. ok (factor_at s prefix i)) (==→eq _ _ e))
        | inr n ↦ rw n (get_binding_factor-factor prefix ps p m)
      ]

  find_factor-get :
      (bs : BindingFactorList s.group) (id : Identifier) {f : s.Scalar}
      → get_binding_factor s bs id ≡ ok f
      → find_factor s.group bs id ≡ some f
  unfolding get_binding_factor find_factor
  find_factor-get [] id h = cc
  find_factor-get (b ∷ bs) id h = elim (Bool-cases (b.identifier == id)) [
    | inl e ↦ rw e (cc (rw e at h))
    | inr n ↦ rw n (find_factor-get bs id (rw n at h))
  ]

  pub base-ne-identity : (a : s.Scalar) → a ≢ s.new_scalar → s.scalar_base_mult a ≢ s.identity
  base-ne-identity a n e = n (l.base_injective a s.new_scalar (e ∙ sym l.base-zero))

  require_point-base :
      (a : s.Scalar) (e : Error)
      → a ≢ s.new_scalar
      → require_point s.group (some (s.scalar_base_mult a)) e ≡ ok (s.scalar_base_mult a)
  unfolding require_point
  require_point-base a e n = rw (is_identity_false s.group l _ (base-ne-identity a n))

  contribution :
      (a d b f : s.Scalar)
      → s.plus
          (s.scalar_base_mult a)
          (s.plus (s.scalar_base_mult d) (s.scalar_mult (s.scalar_base_mult b) f))
        ≡ s.scalar_base_mult (a ⊕ (d ⊕ b ⊗ f))
  contribution a d b f =
      rw (l.mult-base b f, plus-base s.group l d (s.mul b f), plus-base s.group l a)

  group_loop-nonces :
      (poly : Polynomial s.group) (prefix : Bytes) (ps qs : List (Signer s)) (a : s.Scalar)
      → All (IsHonest s poly) qs
      → All (λ q. Elem q ps) qs
      → group_loop s.group
          (map (factor_of s prefix) ps)
          (s.scalar_base_mult a)
          (commitments_of s qs)
        ≡ ok (s.scalar_base_mult (a ⊕ sum qs (nonce_of s prefix)))
  unfolding group_loop
  group_loop-nonces poly prefix ps [] a h m =
      ap (λ t. ok (s.scalar_base_mult t)) (sym (field.add-zero a))
  group_loop-nonces poly prefix ps (q ∷ qs) a h m =
      rw
        (
          require_point-base q.hiding _ h.0.hiding-ne-zero,
          require_point-base q.binding _ h.0.binding-ne-zero,
          find_factor-get _ q.identifier (get_binding_factor-factor prefix ps q m.0),
          contribution a q.hiding q.binding (factor_at s prefix q.identifier),
        )
        (group_loop-nonces poly prefix ps qs (s.add a (nonce_of s prefix q)) h.1 m.1
          ∙ ap (λ t. ok (s.scalar_base_mult t)) (field.add_assoc a _ _))

  pub compute_group_commitment-nonces :
      (poly : Polynomial s.group) (prefix : Bytes) (p : Signer s) (ps : List (Signer s))
      → All (IsHonest s poly) (p ∷ ps)
      → compute_group_commitment s.group
          (commitments_of s (p ∷ ps))
          (map (factor_of s prefix) (p ∷ ps))
        ≡ ok (s.scalar_base_mult (sum ⦃f = scalars s.group l⦄ (p ∷ ps) (nonce_of s prefix)))
  unfolding compute_group_commitment
  compute_group_commitment-nonces poly prefix p ps h =
      ap (λ e. group_loop s.group (map (factor_of s prefix) (p ∷ ps)) e (commitments_of s (p ∷ ps)))
        (sym l.base-zero)
      ∙ group_loop-nonces poly prefix (p ∷ ps) (p ∷ ps) s.new_scalar h
          (All-of_Elem _ (p ∷ ps) (λ q m. m))
      ∙ ap (λ t. ok (s.scalar_base_mult t)) (zero-add _)
