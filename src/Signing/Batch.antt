-- ===== src/Signing/Batch.antt =====
-- The verification of a batch of signatures (pkg/frost/signing/batch.go). A verifier is the list of
-- its items; `rng i` is the result of the `i`-th call of `RandomScalar`.
pub mod Claims
pub mod Right
pub mod Accepted
use go_frost.Common.{
  ℕ, zero, suc, ◌+◌, not, ◌||◌, ◌==◌, Option, none, some, List, [], ◌∷◌, ◌++◌, length,
}
use go_frost.Bytes.{Bytes}
use go_frost.Errors.{
  Result, panic, ok, fail, parameter_error, verification_error, sentinel, Sentinel, ◌>>=◌, ◌>>◌,
  wrap, require, reject_if, accept_if, deref,
}
use go_frost.Group.{Group, Suite}
use go_frost.Types.{Signature}

pub record BatchItem (g : Group) : Type 0 where
  pub verifying_key : g.Element
  pub signature : Signature g
  pub challenge : g.Scalar

module _ (s : Suite) where
  -- `NewBatchVerifier`, and what `Clear` leaves.
  unfoldable pub new_batch_verifier : List (BatchItem s.group)
  new_batch_verifier = []

  -- `Add`: the items with the new one. On an error the items stay as they are.
  unfoldable pub add_signature :
      List (BatchItem s.group)
      → Option s.Element
      → Signature s.group
      → Bytes
      → Result (List (BatchItem s.group))
  add_signature items verifying_key signature message = do
    key ←
        require verifying_key
          (parameter_error "verifyingKey" "cannot be nil" (sentinel Sentinel.invalid_parameters))
    reject_if (s.is_identity key)
        (parameter_error "verifyingKey" "cannot be identity" (sentinel Sentinel.identity_element))
    r ← require signature.r (
        parameter_error "signature" "invalid signature components"
          (sentinel Sentinel.invalid_signature))
    z ← require signature.z (
        parameter_error "signature" "invalid signature components"
          (sentinel Sentinel.invalid_signature))
    reject_if (s.is_identity r)
        (parameter_error "signature.R" "R is identity element" (sentinel Sentinel.identity_element))
    ok (
        items
        ++ (record {
          verifying_key = key;
          signature = signature;
          challenge = s.h2 ((s.element_bytes r ++ s.element_bytes key) ++ message);
        }
            ∷ []))

  -- `verifySingle`.
  unfoldable pub verify_single : BatchItem s.group → Result (Unit {0})
  verify_single item = do
    z ← deref item.signature.z
    r ← deref item.signature.r
    accept_if
        (s.same (s.scalar_base_mult z) (s.plus r (s.scalar_mult item.verifying_key item.challenge)))
        (verification_error "signature" "signature verification failed"
          (sentinel Sentinel.invalid_signature))

  -- The loop of `Verify` over the items, from the `i`-th draw: `gCoeff`, `accumR` and `accumVK`.
  unfoldable pub accumulate_items :
      (ℕ → Result s.Scalar)
      → ℕ
      → s.Scalar
      → s.Element
      → s.Element
      → List (BatchItem s.group)
      → Result (s.Scalar × s.Element × s.Element)
  accumulate_items rng i g_coeff accum_r accum_vk [] = ok (g_coeff, accum_r, accum_vk)
  accumulate_items rng i g_coeff accum_r accum_vk (item ∷ items) = do
    blind ← wrap (parameter_error "blind" "failed to generate random blind") (rng i)
    z ← deref item.signature.z
    r ← deref item.signature.r
    accumulate_items rng (i + 1) (s.sub g_coeff (s.mul blind z))
        (s.plus accum_r (s.scalar_mult r blind))
        (s.plus accum_vk (s.scalar_mult item.verifying_key (s.mul blind item.challenge))) items

  -- The check of two items or more.
  unfoldable pub verify_together :
      (ℕ → Result s.Scalar) → List (BatchItem s.group) → Result (Unit {0})
  unfolding accumulate_items
  verify_together rng items = do
    (g_coeff, accum_r, accum_vk) ← accumulate_items rng 0 s.new_scalar s.identity s.identity items
    accept_if (s.is_identity (s.plus (s.plus (s.scalar_base_mult g_coeff) accum_r) accum_vk)) (
        verification_error "batch" "batch verification failed"
          (sentinel Sentinel.invalid_signature))

  -- `Verify`.
  unfoldable pub verify_batch : (ℕ → Result s.Scalar) → List (BatchItem s.group) → Result (Unit {0})
  unfolding verify_single verify_together
  verify_batch rng [] =
      fail (parameter_error "items" "batch is empty" (sentinel Sentinel.invalid_parameters))
  verify_batch rng (item ∷ []) = verify_single item
  verify_batch rng (item ∷ other ∷ items) = verify_together rng (item ∷ other ∷ items)

  -- `Size`.
  unfoldable pub batch_size : List (BatchItem s.group) → ℕ
  batch_size items = length items

  -- The loop of `VerifyAll`: an index out of range panics.
  unfoldable pub add_all :
      List (BatchItem s.group)
      → List (Option s.Element)
      → List (Signature s.group)
      → List Bytes
      → Result (List (BatchItem s.group))
  add_all items keys [] messages = ok items
  add_all items (key ∷ keys) (signature ∷ signatures) (message ∷ messages) = do
    more ← add_signature items key signature message
    add_all more keys signatures messages
  add_all items _ (signature ∷ signatures) _ = panic

  -- `VerifyAll`.
  unfoldable pub verify_all :
      (ℕ → Result s.Scalar)
      → List (Option s.Element)
      → List (Signature s.group)
      → List Bytes
      → Result (Unit {0})
  unfolding add_all
  verify_all rng keys signatures messages = do
    reject_if (not (length keys == length signatures) || not (length signatures == length messages))
        (parameter_error "inputs" "mismatched input lengths" (sentinel Sentinel.invalid_parameters))
    reject_if (length signatures == 0) (
        parameter_error "signatures" "no signatures to verify"
          (sentinel Sentinel.invalid_parameters))
    items ← add_all new_batch_verifier keys signatures messages
    verify_batch rng items
