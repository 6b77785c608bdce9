-- ===== src/Signing/Batch/Right.antt =====
-- Batches in which all items are right, or all but one.
use go_frost.Common.{
  ℕ, ◌+◌, ◌≡◌, ◌≢◌, ◌↔◌, refl, sym, ap, ap₂, ◌∙◌, List, [], ◌∷◌, ◌++◌, map, iff_trans, All,
  All-append, length, subst, arith,
}
use go_frost.Algebra.{Field, ◌⊕◌, ◌⊗◌, add_left_cancel, mul_left_cancel}
use go_frost.Errors.{Result, ok}
use go_frost.Group.{Suite, IsPrimeOrder}
use go_frost.Group.Scalars.{scalars}
use go_frost.Signing.Batch.{verify_batch}
use go_frost.Signing.Batch.Claims.{
  Claim, item_of, expected_response, blinded, verify_together-blinded, verify_single-response,
}

module _ (s : Suite) (l : IsPrimeOrder s.group) (blind : ℕ → s.Scalar) where
  instance abbrev field : Field s.Scalar
  field = scalars s.group l

  abbrev pub IsRight : Claim s → Type 0
  IsRight c = c.response ≡ expected_response s c

  blinded-right :
      (i : ℕ) (cs : List (Claim s))
      → All IsRight cs
      → blinded s blind i (λ c. c.response) cs ≡ blinded s blind i (expected_response s) cs
  blinded-right i [] h = refl
  blinded-right i (c ∷ cs) h = ap₂ s.add (ap (s.mul (blind i)) h.0) (blinded-right (i + 1) cs h.1)

  -- When the other items are right and the blind of one is not zero, the sums tell that one.
  blinded-one :
      (i : ℕ) (cs : List (Claim s)) (c : Claim s) (ds : List (Claim s))
      → All IsRight cs
      → All IsRight ds
      → blind (i + length cs) ≢ s.new_scalar
      → blinded s blind i (λ c. c.response) (cs ++ (c ∷ ds))
        ≡ blinded s blind i (expected_response s) (cs ++ (c ∷ ds))
      → IsRight c
  blinded-one i [] c ds h k n e =
      mul_left_cancel (blind i) c.response (expected_response s c)
        (subst (λ j. blind j ≢ s.new_scalar) (omega arith) n)
        (add_left_cancel (blinded s blind (i + 1) (λ c. c.response) ds) _ _ (
          field.add_comm _ (blind i ⊗ c.response)
          ∙ e
          ∙ field.add_comm _ _
          ∙ ap (λ t. t ⊕ blind i ⊗ expected_response s c) (sym (blinded-right (i + 1) ds k))))
  blinded-one i (b ∷ cs) c ds h k n e =
      blinded-one (i + 1) cs c ds h.1 k (subst (λ j. blind j ≢ s.new_scalar) (omega arith) n) (
        add_left_cancel (blind i ⊗ b.response) _ _ (
          e
          ∙ ap (λ t. blind i ⊗ t ⊕ blinded s blind (i + 1) (expected_response s) (cs ++ (c ∷ ds)))
              (sym h.0)))

  together :
      (cs : List (Claim s)) (c : Claim s) (ds : List (Claim s))
      → All IsRight cs
      → All IsRight ds
      → blind (length cs) ≢ s.new_scalar
      → (blinded s blind 0 (λ c. c.response) (cs ++ (c ∷ ds))
          ≡ blinded s blind 0 (expected_response s) (cs ++ (c ∷ ds)))
        ↔ IsRight c
  together cs c ds k m n = (
    blinded-one 0 cs c ds k m (subst (λ j. blind j ≢ s.new_scalar) (omega arith) n),
    λ e. blinded-right 0 (cs ++ (c ∷ ds)) (All-append IsRight cs (c ∷ ds) k (e, m)),
  )

  -- A batch in which the other items are right is accepted exactly when one item is, unless that
  -- one's blind is zero.
  pub verify_batch-one :
      (rng : ℕ → Result s.Scalar) (cs : List (Claim s)) (c : Claim s) (ds : List (Claim s))
      → ((j : ℕ) → rng j ≡ ok (blind j))
      → All IsRight cs
      → All IsRight ds
      → blind (length cs) ≢ s.new_scalar
      → (verify_batch s rng (map (item_of s) (cs ++ (c ∷ ds))) ≡ ok tt) ↔ IsRight c
  unfolding verify_batch
  verify_batch-one rng [] c [] h k m n = verify_single-response s l blind c
  verify_batch-one rng [] c (d ∷ ds) h k m n =
      iff_trans (verify_together-blinded s l blind rng (c ∷ d ∷ ds) h)
        (together [] c (d ∷ ds) k m n)
  verify_batch-one rng (b ∷ []) c ds h k m n =
      iff_trans (verify_together-blinded s l blind rng (b ∷ c ∷ ds) h)
        (together (b ∷ []) c ds k m n)
  verify_batch-one rng (a ∷ b ∷ cs) c ds h k m n =
      iff_trans (verify_together-blinded s l blind rng (a ∷ b ∷ (cs ++ (c ∷ ds))) h)
        (together (a ∷ b ∷ cs) c ds k m n)

  -- A batch of right items is accepted.
  pub verify_batch-right :
      (rng : ℕ → Result s.Scalar) (c : Claim s) (cs : List (Claim s))
      → ((j : ℕ) → rng j ≡ ok (blind j))
      → All IsRight (c ∷ cs)
      → verify_batch s rng (map (item_of s) (c ∷ cs)) ≡ ok tt
  unfolding verify_batch
  verify_batch-right rng c [] h k = (verify_single-response s l blind c).1 k.0
  verify_batch-right rng c (d ∷ cs) h k =
      (verify_together-blinded s l blind rng (c ∷ d ∷ cs) h).1 (blinded-right 0 (c ∷ d ∷ cs) k)
