-- ===== src/Signing/Batch/Accepted.antt =====
-- `VerifyAll` accepts what `Verify` accepts one by one.
use go_frost.Common.{
  ℕ, ◌≡◌, ◌≢◌, ◌↔◌, refl, sym, ap, ◌∙◌, some, List, [], ◌∷◌, ◌++◌, map, iff_trans, All, All-append,
  All-imp, length, length-map, false, Option, ==_refl, ne→==-false, length-append, arith, subst,
  iff_sym,
}
use mathlib.Core.List.{append_assoc, append-nil, map-append}
use go_frost.Bytes.{Bytes}
use go_frost.Errors.{Result, ok, bind-eq-ok, wrap-eq-ok, reject_if-eq-ok, reject_if, wrap}
use go_frost.Group.{Suite, IsPrimeOrder}
use go_frost.Group.Scalars.{is_identity_false}
use go_frost.Types.{Signature}
use go_frost.Signing.Aggregator.{verify}
use go_frost.Signing.Challenge.{compute_challenge}
use go_frost.Signing.Honest.{session_challenge}
use go_frost.Signing.Honest.Commit.{base-ne-identity}
use go_frost.Signing.Honest.Verify.{verify-response}
use go_frost.Signing.Batch.{
  BatchItem, add_signature, add_all, verify_all, verify_batch, new_batch_verifier,
}
use go_frost.Signing.Batch.Claims.{Claim, item_of, expected_response}
use go_frost.Signing.Batch.Right.{IsRight, verify_batch-one, verify_batch-right}

module _ (s : Suite) where
  -- A message with a signature, and the secrets of its key and its commitment.
  pub record Signed : Type 0 where
    pub secret : s.Scalar
    pub nonce : s.Scalar
    pub response : s.Scalar
    pub message : Bytes

  abbrev pub key_for : Signed → Option s.Element
  key_for m = some (s.scalar_base_mult m.secret)

  abbrev pub signature_for : Signed → Signature s.group
  signature_for m = record { r = some (s.scalar_base_mult m.nonce); z = some m.response }

  -- `Verify` accepts it.
  abbrev pub IsVerified : Signed → Type 0
  IsVerified m = verify s m.message (signature_for m) (key_for m) ≡ ok tt

  abbrev pub verify_all_signed : (ℕ → Result s.Scalar) → List Signed → Result (Unit {0})
  verify_all_signed rng ms =
      verify_all s rng (map key_for ms) (map signature_for ms) (map (λ m. m.message) ms)

  abbrev claim_of : Signed → Claim s
  claim_of m = record {
    secret = m.secret;
    nonce = m.nonce;
    response = m.response;
    challenge = session_challenge s (s.scalar_base_mult m.secret) m.nonce m.message;
  }

  -- Neither the key nor the commitment is the identity.
  abbrev IsNonzero : Signed → Type 0
  IsNonzero m = (m.secret ≢ s.new_scalar) × (m.nonce ≢ s.new_scalar)

module _ (s : Suite) (l : IsPrimeOrder s.group) where
  base-ne-zero : (a : s.Scalar) → s.is_identity (s.scalar_base_mult a) ≡ false → a ≢ s.new_scalar
  base-ne-zero a h e = cc (h, (l.is_identity_iff _).1 (ap s.scalar_base_mult e ∙ l.base-zero))

  add_signature-item :
      (items : List (BatchItem s.group)) (m : Signed s)
      → IsNonzero s m
      → add_signature s items (key_for s m) (signature_for s m) m.message
        ≡ ok (items ++ (item_of s (claim_of s m) ∷ []))
  unfolding add_signature
  add_signature-item items m n = rw (
    is_identity_false s.group l _ (base-ne-identity s l m.secret n.0),
    is_identity_false s.group l _ (base-ne-identity s l m.nonce n.1),
  )

  add_all-items :
      (items : List (BatchItem s.group)) (ms : List (Signed s))
      → All (IsNonzero s) ms
      → add_all s items (map (key_for s) ms) (map (signature_for s) ms) (map (λ m. m.message) ms)
        ≡ ok (items ++ map (item_of s) (map (claim_of s) ms))
  unfolding add_all
  add_all-items items [] n = ap ok (sym (append-nil items))
  add_all-items items (m ∷ ms) n = rw (add_signature-item items m n.0) (
      add_all-items (items ++ (item_of s (claim_of s m) ∷ [])) ms n.1
      ∙ ap ok (append_assoc items (item_of s (claim_of s m) ∷ []) _))

  verify_all_signed-verify_batch :
      (rng : ℕ → Result s.Scalar) (ms : List (Signed s))
      → length ms ≢ 0
      → All (IsNonzero s) ms
      → verify_all_signed s rng ms ≡ verify_batch s rng (map (item_of s) (map (claim_of s) ms))
  unfolding verify_all new_batch_verifier
  verify_all_signed-verify_batch rng ms k n =
      rw
        (
          length-map (key_for s) ms,
          length-map (signature_for s) ms,
          length-map (λ (m : Signed s). m.message) ms,
          ==_refl (length ms),
          ne→==-false (length ms) 0 k,
          add_all-items [] ms n,
        )
        refl

  -- What `Verify` has checked.
  IsVerified-right :
      (m : Signed s)
      → IsVerified s m
      → IsNonzero s m
        × (session_challenge s (s.scalar_base_mult m.secret) m.nonce m.message ≢ s.new_scalar)
        × (m.response ≡ expected_response s (claim_of s m))
  unfolding verify compute_challenge
  IsVerified-right m e =
      let challenge = session_challenge s (s.scalar_base_mult m.secret) m.nonce m.message in
      let (u1, h1, e1) =
        bind-eq-ok (reject_if (s.is_identity (s.scalar_base_mult m.nonce)) _) _ e in
      let (u2, h2, e2) =
        bind-eq-ok (reject_if (s.is_identity (s.scalar_base_mult m.secret)) _) _ e1 in
      let (c, h3, e3) =
        bind-eq-ok (wrap _ (compute_challenge s (some _) (some _) m.message)) _ e2 in
      let (u4, h4, e4) = bind-eq-ok (reject_if (s.is_zero challenge) _) _ (wrap-eq-ok _ _ h3) in
      let nr = base-ne-zero m.nonce (reject_if-eq-ok _ _ h1) in
      let nk = base-ne-zero m.secret (reject_if-eq-ok _ _ h2) in
      let nc : challenge ≢ s.new_scalar = λ z. cc (reject_if-eq-ok _ _ h4, (l.is_zero_iff _).1 z) in
      ((nk, nr), nc, (verify-response s l m.secret m.nonce m.response m.message nk nr nc).0 e)

  rights :
      (blind : ℕ → s.Scalar) (ms : List (Signed s))
      → All (IsVerified s) ms
      → All (IsRight s l blind) (map (claim_of s) ms)
  rights blind [] v = tt
  rights blind (m ∷ ms) v = ((IsVerified-right m v.0).2, rights blind ms v.1)

  -- A message is signed under a key and with a commitment that have known secrets. One or more such
  -- signatures that `Verify` accepts are accepted together by `VerifyAll`, whatever blinds are drawn.
  pub verify_batch-verified :
      (rng : ℕ → Result s.Scalar) (blind : ℕ → s.Scalar) (m : Signed s) (ms : List (Signed s))
      → ((j : ℕ) → rng j ≡ ok (blind j))
      → All (IsVerified s) (m ∷ ms)
      → verify_all_signed s rng (m ∷ ms) ≡ ok tt
  verify_batch-verified rng blind m ms h v =
      verify_all_signed-verify_batch rng (m ∷ ms) (omega arith)
        (All-imp (m ∷ ms) (λ p e. (IsVerified-right p e).0) v)
      ∙ verify_batch-right s l blind rng (claim_of s m) (map (claim_of s) ms) h
          (rights blind (m ∷ ms) v)

  -- Keys and commitments are the multiples of the generator by given scalars. Let `Verify` accept all
  -- signatures but perhaps one, whose key, commitment and challenge are not zero. `VerifyAll` accepts
  -- them together exactly when `Verify` accepts that one, unless the blind that is drawn for it is
  -- zero.
  pub verify_batch-verify :
      (rng : ℕ → Result s.Scalar) (blind : ℕ → s.Scalar) (ms : List (Signed s)) (m : Signed s)
      (ns : List (Signed s))
      → ((j : ℕ) → rng j ≡ ok (blind j))
      → All (IsVerified s) ms
      → All (IsVerified s) ns
      → m.secret ≢ s.new_scalar
      → m.nonce ≢ s.new_scalar
      → session_challenge s (s.scalar_base_mult m.secret) m.nonce m.message ≢ s.new_scalar
      → blind (length ms) ≢ s.new_scalar
      → (verify_all_signed s rng (ms ++ (m ∷ ns)) ≡ ok tt) ↔ IsVerified s m
  verify_batch-verify rng blind ms m ns h v w nk nr nc nb =
      let whole = ms ++ (m ∷ ns) in
      let k : length whole ≢ 0 = omega (arith, length-append ms (m ∷ ns)) in
      let nonzero =
        All-append (IsNonzero s) ms (m ∷ ns) (All-imp ms (λ p e. (IsVerified-right p e).0) v)
          ((nk, nr), All-imp ns (λ p e. (IsVerified-right p e).0) w) in
      let one =
        verify_batch-one s l blind rng (map (claim_of s) ms) (claim_of s m) (map (claim_of s) ns) h
          (rights blind ms v) (rights blind ns w)
          (subst (λ j. blind j ≢ s.new_scalar) (sym (length-map (claim_of s) ms)) nb) in
      rw (verify_all_signed-verify_batch rng whole k nonzero, map-append (claim_of s) ms (m ∷ ns))
        (iff_trans one
          (iff_sym (verify-response s l m.secret m.nonce m.response m.message nk nr nc)))
