-- ===== src/Signing/Honest/Aborts.antt =====
-- `AggregateWithVerification` in a session: it returns the signature when all responses are right,
-- and names the participant whose response is the first that is wrong.
use go_frost.Common.{
  ℕ, ◌≤◌, ◌≡◌, ◌≢◌, refl, ap, ◌∙◌, le→ltb-false, some, List, [], ◌∷◌, ◌++◌, map, length, length-map,
  All, All-of_Elem, Elem, arith,
}
use go_frost.Algebra.{Field, zero-add}
use go_frost.Algebra.Sums.{sum}
use go_frost.Bytes.{Bytes}
use go_frost.Encoding.Order.{IsIncreasing, IsIncreasing-Distinct, validate-IsIncreasing}
use go_frost.Errors.{ok, fail, ◌>>=◌, ◌>>◌}
use go_frost.Errors.Culprits.{get_culprits}
use go_frost.Group.{Suite, IsPrimeOrder}
use go_frost.Group.Scalars.{scalars}
use go_frost.Types.{SignatureShare, Polynomial}
use go_frost.Signing.Aggregator.{sum_shares, verify_shares, aggregate_with_verification, verify}
use go_frost.Signing.Honest.{
  Signer, IsHonest, commitments_of, nonce_of, session_prefix, session_challenge, sign_all,
  factor_of,
}
use go_frost.Signing.Honest.Sign.{
  participants-identifiers, participant_scalars-x, scalars-Distinct, challenge-session, response,
  round_two-response, sign_all-responses,
}
use go_frost.Signing.Honest.Verify.{
  commit_group-nonces, verify-response, sum_shares-sum, responses-sum,
}
use go_frost.Signing.Honest.Checked.{
  key_of, verify_shares-responses, verify_shares-wrong, share_of, blame,
}

module _ (s : Suite) (l : IsPrimeOrder s.group) where
  instance abbrev field : Field s.Scalar
  field = scalars s.group l

  checked-steps :
      (poly : Polynomial s.group) (key : s.Element) (mn : ℕ) (msg : Bytes) (r c : s.Scalar)
      (q : Signer s) (qs : List (Signer s)) (shares : List (SignatureShare s.group))
      → All (IsHonest s poly) (q ∷ qs)
      → IsIncreasing (map (λ p. p.identifier) (q ∷ qs))
      → mn ≤ length shares
      → r ≡ sum (q ∷ qs) (nonce_of s (session_prefix s key (q ∷ qs) msg))
      → c
        ≡ session_challenge s key
            (sum (q ∷ qs) (nonce_of s (session_prefix s key (q ∷ qs) msg)))
            msg
      → r ≢ s.new_scalar
      → c ≢ s.new_scalar
      → aggregate_with_verification s mn
          (some key)
          (commitments_of s (q ∷ qs))
          msg
          shares
          (map (key_of s) (q ∷ qs))
        ≡ (verify_shares s
              (map (factor_of s (session_prefix s key (q ∷ qs) msg)) (q ∷ qs))
              (commitments_of s (q ∷ qs))
              (map (key_of s) (q ∷ qs))
              (map (λ p. p.x) (q ∷ qs))
              c
              shares
            >> ok (record {
              r = some (s.scalar_base_mult r);
              z = some (sum_shares s.group s.new_scalar shares);
            }))
  unfolding aggregate_with_verification
  checked-steps poly key mn msg r c q qs shares h i n er ec nr nc = rw (
    er,
    ec,
    (validate-IsIncreasing s.group (commitments_of s (q ∷ qs))).1
        (rw (participants-identifiers s l (q ∷ qs)) i),
    le→ltb-false (length shares) mn n,
    commit_group-nonces s l poly key msg q qs h (λ e. nr (er ∙ e)),
    challenge-session s l key _ msg (λ e. nc (ec ∙ e)),
    participants-identifiers s l (q ∷ qs),
    participant_scalars-x s l poly (q ∷ qs) h,
  )

  -- At least threshold many participants hold shares of a secret key and follow the protocol, their
  -- identifiers increasing along the commitment list. Unless the key, the sum of the nonces or the
  -- challenge is zero, their responses pass the verification of shares in
  -- `AggregateWithVerification`, which is given their public keys, and `Verify` accepts the signature
  -- that it returns.
  pub session-checked :
      (k : s.Scalar) (cs : List s.Scalar) (mn : ℕ) (msg : Bytes) (q : Signer s)
      (qs : List (Signer s))
      → All (IsHonest s (k ∷ cs)) (q ∷ qs)
      → IsIncreasing (map (λ p. p.identifier) (q ∷ qs))
      → length (k ∷ cs) ≤ length (q ∷ qs)
      → mn ≤ length (q ∷ qs)
      → k ≢ s.new_scalar
      → sum ⦃f = scalars s.group l⦄
          (q ∷ qs)
          (nonce_of s (session_prefix s (s.scalar_base_mult k) (q ∷ qs) msg))
        ≢ s.new_scalar
      → session_challenge s
          (s.scalar_base_mult k)
          (sum ⦃f = scalars s.group l⦄
            (q ∷ qs)
            (nonce_of s (session_prefix s (s.scalar_base_mult k) (q ∷ qs) msg)))
          msg
        ≢ s.new_scalar
      → (do
        shares ← sign_all s (s.scalar_base_mult k) mn msg (commitments_of s (q ∷ qs)) (q ∷ qs)
        signature ←
            aggregate_with_verification s mn
              (some (s.scalar_base_mult k))
              (commitments_of s (q ∷ qs))
              msg
              shares
              (map (key_of s) (q ∷ qs))
        verify s msg signature (some (s.scalar_base_mult k)))
        ≡ ok tt
  session-checked k cs mn msg q qs h i n m nk nr nc =
      let key = s.scalar_base_mult k in
      let prefix = session_prefix s key (q ∷ qs) msg in
      let r = sum (q ∷ qs) (nonce_of s prefix) in
      let c = session_challenge s key r msg in
      let d = IsIncreasing-Distinct (map (λ p. p.identifier) (q ∷ qs)) i in
      let shares = map (response s l prefix (q ∷ qs) c) (q ∷ qs) in
      rw
        (
          sign_all-responses s l key mn msg prefix (q ∷ qs) (q ∷ qs) c
              (λ p e. round_two-response s l (k ∷ cs) key mn [] msg q qs p h i m nc e),
          checked-steps (k ∷ cs) key mn msg r c q qs shares h i
              (omega (arith, length-map (response s l prefix (q ∷ qs) c) qs, m)) refl refl nr nc,
          verify_shares-responses s l (k ∷ cs) prefix c (q ∷ qs) (q ∷ qs) h d
              (scalars-Distinct s l (k ∷ cs) (q ∷ qs) h d) (All-of_Elem _ (q ∷ qs) (λ p e. e)),
        )
        ((verify-response s l k r _ msg nk nr nc).1 (
          sum_shares-sum s l s.new_scalar prefix (q ∷ qs) (q ∷ qs) c
          ∙ zero-add _
          ∙ responses-sum s l k cs prefix (q ∷ qs) c h i n))

  -- In a session with a commitment list of honest participants, let the first shares be the right
  -- responses of some of them and the next one carry the identifier of the participant `p` and
  -- another response. Unless the sum of the nonces or the challenge is zero,
  -- `AggregateWithVerification`, given enough shares, fails with an error whose culprit is `p` alone.
  pub session-culprit :
      (poly : Polynomial s.group) (key : s.Element) (mn : ℕ) (msg : Bytes) (q : Signer s)
      (qs ps : List (Signer s)) (p : Signer s) (z : s.Scalar) (rest : List (SignatureShare s.group))
      (r c : s.Scalar)
      → r ≡ sum ⦃f = scalars s.group l⦄ (q ∷ qs) (nonce_of s (session_prefix s key (q ∷ qs) msg))
      → c ≡ session_challenge s key r msg
      → All (IsHonest s poly) (q ∷ qs)
      → IsIncreasing (map (λ p. p.identifier) (q ∷ qs))
      → mn
        ≤ length (
            map (response s l (session_prefix s key (q ∷ qs) msg) (q ∷ qs) c) ps
            ++ (share_of s l p z ∷ rest))
      → r ≢ s.new_scalar
      → c ≢ s.new_scalar
      → All (λ p. Elem p (q ∷ qs)) ps
      → Elem p (q ∷ qs)
      → z ≢ (response s l (session_prefix s key (q ∷ qs) msg) (q ∷ qs) c p).signature_share
      → (aggregate_with_verification s mn
            (some key)
            (commitments_of s (q ∷ qs))
            msg
            (map (response s l (session_prefix s key (q ∷ qs) msg) (q ∷ qs) c) ps
              ++ (share_of s l p z ∷ rest))
            (map (key_of s) (q ∷ qs))
          ≡ fail (blame s l p))
        × (get_culprits (blame s l p) ≡ p.identifier ∷ [])
  unfolding get_culprits
  session-culprit poly key mn msg q qs ps p z rest r c er ec h i m nr nc es e n =
      let prefix = session_prefix s key (q ∷ qs) msg in
      let d = IsIncreasing-Distinct (map (λ p. p.identifier) (q ∷ qs)) i in
      (
        rw (
          checked-steps poly key mn msg r c q qs
              (map (response s l prefix (q ∷ qs) c) ps ++ (share_of s l p z ∷ rest)) h i m er
              (ec ∙ ap (λ t. session_challenge s key t msg) er) nr nc,
          verify_shares-wrong s l poly prefix c (q ∷ qs) ps p z rest h d
              (scalars-Distinct s l poly (q ∷ qs) h d) es e n,
        ),
        refl,
      )
