-- ===== src/Signing/Rerandomized/Session.antt =====
-- A rerandomized session in which every participant follows the protocol.
use go_frost.Common.{
  ℕ, ◌≤◌, ◌≡◌, ◌≢◌, refl, sym, ap, ap₂, ◌∙◌, some, List, [], ◌∷◌, map, length, length-map, All,
  subst, arith, ◌++◌,
}
use go_frost.Algebra.{Field, ◌⊗◌}
use go_frost.Algebra.Sums.{sum}
use go_frost.Algebra.Polynomials.{poly_value}
use go_frost.Bytes.{Bytes}
use go_frost.Encoding.Order.{IsIncreasing}
use go_frost.Errors.{ok, Result, ◌>>=◌, bind-eq-ok, reject_if, reject_if-eq-ok, ok_injective}
use go_frost.Group.{Suite, IsPrimeOrder}
use go_frost.Group.Scalars.{scalars, plus-base, or_else}
use go_frost.Polynomial.{evaluate}
use go_frost.Polynomial.Value.{evaluate-poly_value}
use go_frost.Types.{CommitmentList, SignatureShare}
use go_frost.Signing.Honest.{
  Signer, IsHonest, commitment_of, commitments_of, nonces_of, nonce_of, session_prefix,
  session_challenge, package_of, sign_all,
}
use go_frost.Signing.Honest.Aborts.{session-checked}
use go_frost.Signing.Honest.Checked.{key_of}
use go_frost.Signing.Rerandomized.{
  RandomizedParams, new_randomized_params, randomize_verification_share, randomize_key_package,
  rerandomized_round_two, aggregate_randomized, verify_randomized, get_randomized_public_key,
}
use go_frost.Encoding.{encode}
use go_frost.Signing.Aggregator.{aggregate_with_verification, verify}

module _ (s : Suite) where
  -- A participant whose share is moved by the randomizer.
  abbrev randomized : s.Scalar → Signer s → Signer s
  randomized r p = record p { share = s.add p.share r }

  -- Every participant runs `RoundTwo` with its own key package and the same parameters.
  unfoldable pub rerandomized_sign_all :
      RandomizedParams s.group
      → s.Element
      → ℕ
      → Bytes
      → CommitmentList s.group
      → List (Signer s)
      → Result (List (SignatureShare s.group))
  rerandomized_sign_all params key mn msg cs [] = ok []
  rerandomized_sign_all params key mn msg cs (p ∷ ps) = do
    share ←
        rerandomized_round_two s
          (record { key_package = package_of s key mn [] p; params = params }) (nonces_of s p) msg
          cs
    shares ← rerandomized_sign_all params key mn msg cs ps
    ok (share ∷ shares)

  -- The parameters that `NewRandomizedParams` makes.
  abbrev params_of : s.Scalar → s.Element → RandomizedParams s.group
  params_of r key = record {
    randomizer = r;
    randomizer_element = s.scalar_base_mult r;
    randomized_verifying_key = some key;
  }

  commitments-randomized :
      (r : s.Scalar) (ps : List (Signer s))
      → commitments_of s (map (randomized r) ps) ≡ commitments_of s ps
  commitments-randomized r [] = refl
  commitments-randomized r (p ∷ ps) = ap (◌∷◌ (commitment_of s p)) (commitments-randomized r ps)

  identifiers-randomized :
      (r : s.Scalar) (ps : List (Signer s))
      → map (λ (p : Signer s). p.identifier) (map (randomized r) ps)
        ≡ map (λ (p : Signer s). p.identifier) ps
  identifiers-randomized r [] = refl
  identifiers-randomized r (p ∷ ps) = ap (◌∷◌ p.identifier) (identifiers-randomized r ps)

  sign_all-randomized :
      (r : s.Scalar) (key moved : s.Element) (mn : ℕ) (msg : Bytes) (cs : CommitmentList s.group)
      (ps : List (Signer s))
      → rerandomized_sign_all (params_of r moved) key mn msg cs ps
        ≡ sign_all s moved mn msg cs (map (randomized r) ps)
  unfolding rerandomized_sign_all sign_all rerandomized_round_two randomize_key_package
  sign_all-randomized r key moved mn msg cs [] = refl
  sign_all-randomized r key moved mn msg cs (p ∷ ps) =
      rw (sign_all-randomized r key moved mn msg cs ps)

module _ (s : Suite) (l : IsPrimeOrder s.group) where
  instance abbrev field : Field s.Scalar
  field = scalars s.group l

  sum-randomized :
      (r : s.Scalar) (prefix : Bytes) (ps : List (Signer s))
      → sum (map (randomized s r) ps) (nonce_of s prefix) ≡ sum ps (nonce_of s prefix)
  sum-randomized r prefix [] = refl
  sum-randomized r prefix (p ∷ ps) =
      ap (field.add (nonce_of s prefix p)) (sum-randomized r prefix ps)

  -- The shares of a secret, each moved by the randomizer, are shares of the moved secret.
  evaluate-randomized :
      (k r : s.Scalar) (cs : List s.Scalar) (x : s.Scalar)
      → s.add (evaluate s.group (k ∷ cs) x) r ≡ evaluate s.group (s.add k r ∷ cs) x
  evaluate-randomized k r cs x =
      rw
        (evaluate-poly_value s.group l (k ∷ cs) x, evaluate-poly_value s.group l (s.add k r ∷ cs) x)
        (let v = poly_value cs x in
          cc (field.add_assoc k (x ⊗ v) r, field.add_comm (x ⊗ v) r, field.add_assoc k r (x ⊗ v)))

  IsHonest-randomized :
      (k r : s.Scalar) (cs : List s.Scalar) (ps : List (Signer s))
      → All (IsHonest s (k ∷ cs)) ps
      → All (IsHonest s (s.add k r ∷ cs)) (map (randomized s r) ps)
  IsHonest-randomized k r cs [] h = tt
  IsHonest-randomized k r cs (p ∷ ps) h = (
    record {
      small = h.0.small;
      has_scalar = h.0.has_scalar;
      has_share = ap (λ t. s.add t r) h.0.has_share ∙ evaluate-randomized k r cs p.x;
      hiding-ne-zero = h.0.hiding-ne-zero;
      binding-ne-zero = h.0.binding-ne-zero;
    },
    IsHonest-randomized k r cs ps h.1,
  )

  keys-randomized :
      (r : s.Scalar) (moved : s.Element) (ps : List (Signer s))
      → map (randomize_verification_share s.group (params_of s r moved)) (map (key_of s) ps)
        ≡ map (key_of s) (map (randomized s r) ps)
  unfolding randomize_verification_share
  keys-randomized r moved [] = refl
  keys-randomized r moved (p ∷ ps) =
      ap₂ (◌∷◌)
        (ap (λ t. record { identifier = p.identifier; verification_key = t })
          (plus-base s.group l p.share r))
        (keys-randomized r moved ps)

  -- The rounds, the aggregation and the verification, with the original key packages and public keys,
  -- and those of a session without parameters.
  abbrev rerandomized_run :
      RandomizedParams s.group
      → s.Element
      → ℕ
      → Bytes
      → CommitmentList s.group
      → List (Signer s)
      → Result (Unit {0})
  rerandomized_run params key mn msg cs ps = do
    shares ← rerandomized_sign_all s params key mn msg cs ps
    signature ←
        aggregate_randomized s (record { min_signers = mn; params = params }) cs msg shares
          (map (key_of s) ps)
    verify_randomized s (record { min_signers = mn; params = params }) msg signature

  abbrev checked_run :
      s.Element → ℕ → Bytes → CommitmentList s.group → List (Signer s) → Result (Unit {0})
  checked_run key mn msg cs ps = do
    shares ← sign_all s key mn msg cs ps
    signature ← aggregate_with_verification s mn (some key) cs msg shares (map (key_of s) ps)
    verify s msg signature (some key)

  rerandomized_run-checked :
      (r : s.Scalar) (key moved : s.Element) (mn : ℕ) (msg : Bytes) (cs : CommitmentList s.group)
      (ps : List (Signer s))
      → rerandomized_run (params_of s r moved) key mn msg cs ps
        ≡ checked_run moved mn msg cs (map (randomized s r) ps)
  unfolding aggregate_randomized verify_randomized
  rerandomized_run-checked r key moved mn msg cs ps =
      rw (sign_all-randomized s r key moved mn msg cs ps, keys-randomized r moved ps)

  -- `NewRandomizedParams` refuses the randomizer exactly when it cancels the secret key.
  new_randomized_params-ok :
      (k r : s.Scalar) (params : RandomizedParams s.group)
      → new_randomized_params s (some r) (some (s.scalar_base_mult k)) ≡ ok params
      → (s.add k r ≢ s.new_scalar) × (params ≡ params_of s r (s.scalar_base_mult (s.add k r)))
  unfolding new_randomized_params
  new_randomized_params-ok k r params h =
      let moved = rw (plus-base s.group l k r) at h in
      let (u, accepted, made) =
        bind-eq-ok (reject_if (s.is_identity (s.scalar_base_mult (s.add k r))) _) _ moved in
      let kept = reject_if-eq-ok _ _ accepted in
      (
        λ e. cc ((l.is_identity_iff _).1 (ap s.scalar_base_mult e ∙ l.base-zero), kept),
        sym (ok_injective made),
      )

  -- The participants hold shares of a secret key, are at least as many as the threshold and as the
  -- coefficients of the sharing polynomial, and follow the protocol with one set of parameters, which
  -- `NewRandomizedParams` made from a randomizer and the public key; their identifiers increase along
  -- the commitment list. Unless the sum of the nonces or the challenge is zero, `RoundTwo` of the
  -- rerandomized participants succeeds for each, the rerandomized aggregator accepts their shares
  -- against the public keys of the original ones, and its `Verify` accepts the signature, which
  -- `GetRandomizedPublicKey` gives as the public key of the secret key plus the randomizer.
  pub rerandomized_session-verify :
      (k r : s.Scalar) (cs : List s.Scalar) (params : RandomizedParams s.group) (mn : ℕ)
      (msg : Bytes) (q : Signer s) (qs : List (Signer s))
      → new_randomized_params s (some r) (some (s.scalar_base_mult k)) ≡ ok params
      → All (IsHonest s (k ∷ cs)) (q ∷ qs)
      → IsIncreasing (map (λ p. p.identifier) (q ∷ qs))
      → length (k ∷ cs) ≤ length (q ∷ qs)
      → mn ≤ length (q ∷ qs)
      → sum ⦃f = scalars s.group l⦄
          (q ∷ qs)
          (nonce_of s (session_prefix s (s.scalar_base_mult (s.add k r)) (q ∷ qs) msg))
        ≢ s.new_scalar
      → session_challenge s
          (s.scalar_base_mult (s.add k r))
          (sum ⦃f = scalars s.group l⦄
            (q ∷ qs)
            (nonce_of s (session_prefix s (s.scalar_base_mult (s.add k r)) (q ∷ qs) msg)))
          msg
        ≢ s.new_scalar
      → ((do
        shares ←
            rerandomized_sign_all s params
              (s.scalar_base_mult k)
              mn
              msg
              (commitments_of s (q ∷ qs))
              (q ∷ qs)
        signature ←
            aggregate_randomized s
              (record { min_signers = mn; params = params })
              (commitments_of s (q ∷ qs))
              msg
              shares
              (map (key_of s) (q ∷ qs))
        verify_randomized s (record { min_signers = mn; params = params }) msg signature)
          ≡ ok tt)
        × (get_randomized_public_key s (record { min_signers = mn; params = params })
            ≡ some (s.scalar_base_mult (s.add k r)))
  unfolding get_randomized_public_key
  rerandomized_session-verify k r cs params mn msg q qs made h i n m nr nc =
      let (nk, e) = new_randomized_params-ok k r params made in
      let key = s.scalar_base_mult (s.add k r) in
      let same_commitments = commitments-randomized s r (q ∷ qs) in
      let ps = map (randomized s r) (q ∷ qs) in
      let same_prefix : session_prefix s key ps msg ≡ session_prefix s key (q ∷ qs) msg =
        ap (λ t. (s.element_bytes key ++ s.h4 msg) ++ s.h5 (or_else [] (encode s.group t)))
          same_commitments in
      let same_nonce : sum ps (nonce_of s (session_prefix s key ps msg))
          ≡ sum (q ∷ qs) (nonce_of s (session_prefix s key (q ∷ qs) msg)) =
        ap (λ t. sum ps (nonce_of s t)) same_prefix
        ∙ sum-randomized r (session_prefix s key (q ∷ qs) msg) (q ∷ qs) in
      let checked =
        session-checked s l (s.add k r) cs mn msg (randomized s r q) (map (randomized s r) qs)
          (IsHonest-randomized k r cs (q ∷ qs) h)
          (subst IsIncreasing (sym (identifiers-randomized s r (q ∷ qs))) i)
          (omega (arith, length-map (randomized s r) (q ∷ qs), n))
          (omega (arith, length-map (randomized s r) (q ∷ qs), m)) nk (λ z. nr (sym same_nonce ∙ z))
          (λ z. nc (ap (λ t. session_challenge s key t msg) (sym same_nonce) ∙ z)) in
      (
        ap
              (λ t.
                rerandomized_run t (s.scalar_base_mult k) mn msg (commitments_of s (q ∷ qs))
                  (q ∷ qs))
              e
            ∙ rerandomized_run-checked r (s.scalar_base_mult k) key mn msg
                (commitments_of s (q ∷ qs)) (q ∷ qs)
            ∙ ap (λ t. checked_run key mn msg t ps) (sym same_commitments)
            ∙ checked,
        ap (λ t. t.randomized_verifying_key) e,
      )
