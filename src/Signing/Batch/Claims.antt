-- ===== src/Signing/Batch/Claims.antt =====
-- A batch whose keys and commitments have known secrets: the check of the batch is one equation
-- between scalars, the equations of its items with random weights.
use go_frost.Common.{
  ℕ, ◌+◌, ◌≡◌, ◌↔◌, refl, sym, ap, ap₂, ◌∙◌, some, List, [], ◌∷◌, map, iff_trans, true,
}
use go_frost.Algebra.{
  Field, ◌⊕◌, ◌⊗◌, zero-add, add_interchange, mul_left_comm, add-sub_cancel, add_left_cancel,
}
use go_frost.Errors.{Result, ok, accept_if_iff}
use go_frost.Group.{Suite, IsPrimeOrder}
use go_frost.Group.Scalars.{scalars, plus-base, same-base}
use go_frost.Signing.Batch.{BatchItem, accumulate_items, verify_together, verify_single}

module _ (s : Suite) where
  -- What an item says: the secrets of its key and its commitment, its response and its challenge.
  pub record Claim : Type 0 where
    pub secret : s.Scalar
    pub nonce : s.Scalar
    pub response : s.Scalar
    pub challenge : s.Scalar

  abbrev pub item_of : Claim → BatchItem s.group
  item_of c = record {
    verifying_key = s.scalar_base_mult c.secret;
    signature = record { r = some (s.scalar_base_mult c.nonce); z = some c.response };
    challenge = c.challenge;
  }

  -- The response that the claim should have.
  abbrev pub expected_response : Claim → s.Scalar
  expected_response c = s.add c.nonce (s.mul c.secret c.challenge)

  -- The sum of a function over claims, each times the blind at its place.
  abbrev pub blinded : (ℕ → s.Scalar) → ℕ → (Claim → s.Scalar) → List Claim → s.Scalar
  blinded blind i f [] = s.new_scalar
  blinded blind i f (c ∷ cs) = s.add (s.mul (blind i) (f c)) (blinded blind (i + 1) f cs)

module _ (s : Suite) (l : IsPrimeOrder s.group) (blind : ℕ → s.Scalar) where
  instance abbrev field : Field s.Scalar
  field = scalars s.group l

  is_identity-base :
      (a : s.Scalar) → (s.is_identity (s.scalar_base_mult a) ≡ true) ↔ (a ≡ s.new_scalar)
  is_identity-base a = (
    λ h. l.base_injective a s.new_scalar ((l.is_identity_iff _).0 h ∙ sym l.base-zero),
    λ e. (l.is_identity_iff _).1 (ap s.scalar_base_mult e ∙ l.base-zero),
  )

  blinded-add :
      (i : ℕ) (f h : Claim s → s.Scalar) (cs : List (Claim s))
      → blinded s blind i (λ c. s.add (f c) (h c)) cs
        ≡ s.add (blinded s blind i f cs) (blinded s blind i h cs)
  blinded-add i f h [] = sym (field.add-zero s.new_scalar)
  blinded-add i f h (c ∷ cs) =
      ap₂ s.add (field.mul-add (blind i) (f c) (h c)) (blinded-add (i + 1) f h cs)
      ∙ add_interchange (blind i ⊗ f c) (blind i ⊗ h c) _ _

  -- The loop's three accumulators.
  accumulate_items-blinded :
      (rng : ℕ → Result s.Scalar) (i : ℕ) (g u v : s.Scalar) (cs : List (Claim s))
      → ((j : ℕ) → rng j ≡ ok (blind j))
      → (g1 : s.Scalar) × (accumulate_items s rng i g
            (s.scalar_base_mult u)
            (s.scalar_base_mult v)
            (map (item_of s) cs)
          ≡ ok (
            g1,
            s.scalar_base_mult (s.add u (blinded s blind i (λ c. c.nonce) cs)),
            s.scalar_base_mult (s.add v (blinded s blind i (λ c. s.mul c.secret c.challenge) cs)),
          ))
        × (s.add g1 (blinded s blind i (λ c. c.response) cs) ≡ g)
  unfolding accumulate_items
  accumulate_items-blinded rng i g u v [] h =
      (g, rw (field.add-zero u, field.add-zero v) refl, field.add-zero g)
  accumulate_items-blinded rng i g u v (c ∷ cs) h =
      let (g1, e, d) =
        accumulate_items-blinded rng (i + 1) (s.sub g (blind i ⊗ c.response))
          (u ⊕ blind i ⊗ c.nonce) (v ⊕ blind i ⊗ (c.secret ⊗ c.challenge)) cs h in
      let b = blind i in
      let rest = blinded s blind (i + 1) (λ c. c.response) cs in
      (
        g1,
        rw
            (
              h i,
              l.mult-base c.nonce b,
              field.mul_comm c.nonce b,
              plus-base s.group l u (b ⊗ c.nonce),
              l.mult-base c.secret (b ⊗ c.challenge),
              mul_left_comm c.secret b c.challenge,
              plus-base s.group l v (b ⊗ (c.secret ⊗ c.challenge)),
            )
            (e
              ∙ rw
                  (
                    field.add_assoc u (b ⊗ c.nonce) (blinded s blind (i + 1) (λ c. c.nonce) cs),
                    field.add_assoc v (b ⊗ (c.secret ⊗ c.challenge))
                        (blinded s blind (i + 1) (λ c. s.mul c.secret c.challenge) cs),
                  )
                  refl),
        sym (field.add_assoc g1 (b ⊗ c.response) rest)
            ∙ ap (λ t. t ⊕ rest) (field.add_comm g1 (b ⊗ c.response))
            ∙ field.add_assoc (b ⊗ c.response) g1 rest
            ∙ ap (field.add (b ⊗ c.response)) (d ∙ l.sub_lem g (b ⊗ c.response))
            ∙ add-sub_cancel (b ⊗ c.response) g,
      )

  -- Two sums with one solution: `g` cancels `a`, and cancels `b` exactly when they are equal.
  cancels : (g a b : s.Scalar) → s.add g a ≡ s.new_scalar → (s.add g b ≡ s.new_scalar) ↔ (a ≡ b)
  cancels g a b h = (λ e. add_left_cancel g a b (h ∙ sym e), λ e. ap (s.add g) (sym e) ∙ h)

  -- When every draw succeeds, the check of the batch accepts exactly when the responses of the items
  -- and the responses that they should have, each times the blind of its item, have the same sum.
  pub verify_together-blinded :
      (rng : ℕ → Result s.Scalar) (cs : List (Claim s))
      → ((j : ℕ) → rng j ≡ ok (blind j))
      → (verify_together s rng (map (item_of s) cs) ≡ ok tt)
        ↔ (blinded s blind 0 (λ c. c.response) cs ≡ blinded s blind 0 (expected_response s) cs)
  unfolding verify_together
  verify_together-blinded rng cs h =
      let (g, e, d) = accumulate_items-blinded rng 0 s.new_scalar s.new_scalar s.new_scalar cs h in
      let rs = blinded s blind 0 (λ c. c.nonce) cs in
      let vs = blinded s blind 0 (λ c. s.mul c.secret c.challenge) cs in
      rw
        (
          ap (λ p. accumulate_items s rng 0 s.new_scalar p p (map (item_of s) cs)) (sym l.base-zero)
              ∙ e,
          zero-add rs,
          zero-add vs,
          plus-base s.group l g rs,
          plus-base s.group l (g ⊕ rs) vs,
          field.add_assoc g rs vs,
          sym (blinded-add 0 (λ c. c.nonce) (λ c. s.mul c.secret c.challenge) cs),
        )
        (iff_trans (accept_if_iff _ _) (
          iff_trans (is_identity-base (s.add g (blinded s blind 0 (expected_response s) cs))) (
            cancels g (blinded s blind 0 (λ c. c.response) cs)
              (blinded s blind 0 (expected_response s) cs) d)))

  pub verify_single-response :
      (c : Claim s) → (verify_single s (item_of s c) ≡ ok tt) ↔ (c.response ≡ expected_response s c)
  unfolding verify_single
  verify_single-response c =
      rw (l.mult-base c.secret c.challenge, plus-base s.group l c.nonce (c.secret ⊗ c.challenge))
        (iff_trans (accept_if_iff _ _) (same-base s.group l c.response (expected_response s c)))
