-- ===== src/Signing/Participant/Nonces.antt =====
-- What `RoundOne` returns.
use go_frost.Common.{◌≡◌, ◌≢◌, sym, ap, ◌∙◌, false, some, ◌++◌}
use go_frost.Bytes.{Bytes}
use go_frost.Errors.{Result, ok, wrap, reject_if, bind-eq-ok, wrap-eq-ok, reject_if-eq-ok}
use go_frost.Group.{Suite, IsPrimeOrder}
use go_frost.Types.{SigningCommitments, SigningNonces, KeyPackage}
use go_frost.Signing.Participant.{round_one}

module _ (s : Suite) (l : IsPrimeOrder s.group) where
  nonzero : (a : s.Scalar) → s.is_zero a ≡ false → a ≢ s.new_scalar
  nonzero a h e = cc (h, (l.is_zero_iff a).1 e)

  -- When `RoundOne` succeeds, both reads of random bytes did, the nonces are the H3 hashes of these
  -- bytes before the secret share and are not zero, and the commitments, which the nonces carry
  -- along, are for the participant and those of the two nonces.
  pub round_one-nonces :
      (kp : KeyPackage s.group) (hiding binding : Result Bytes) (nonces : SigningNonces s.group)
      (commitments : SigningCommitments s.group)
      → round_one s kp hiding binding ≡ ok (nonces, commitments)
      → (h : Bytes) × (b : Bytes) × (hiding ≡ ok h)
        × (binding ≡ ok b)
        × (nonces.hiding_nonce ≡ s.h3 (h ++ s.bytes kp.secret_share))
        × (nonces.binding_nonce ≡ s.h3 (b ++ s.bytes kp.secret_share))
        × (nonces.hiding_nonce ≢ s.new_scalar)
        × (nonces.binding_nonce ≢ s.new_scalar)
        × (commitments.identifier ≡ kp.identifier)
        × (commitments.hiding_nonce_commitment ≡ some (s.scalar_base_mult nonces.hiding_nonce))
        × (commitments.binding_nonce_commitment ≡ some (s.scalar_base_mult nonces.binding_nonce))
        × (nonces.commitments ≡ commitments)
  unfolding round_one
  round_one-nonces kp hiding binding nonces commitments e =
      let (h, eh, e1) = bind-eq-ok (wrap _ hiding) _ e in
      let (b, eb, e2) = bind-eq-ok (wrap _ binding) _ e1 in
      let hn = s.h3 (h ++ s.bytes kp.secret_share) in
      let bn = s.h3 (b ++ s.bytes kp.secret_share) in
      let (u1, z1, e3) = bind-eq-ok (reject_if (s.is_zero hn) _) _ e2 in
      let (u2, z2, e4) = bind-eq-ok (reject_if (s.is_zero bn) _) _ e3 in
      let (u3, _, e5) = bind-eq-ok (reject_if (s.is_identity (s.scalar_base_mult hn)) _) _ e4 in
      let (u4, _, e6) = bind-eq-ok (reject_if (s.is_identity (s.scalar_base_mult bn)) _) _ e5 in
      let c : SigningCommitments s.group = record {
        identifier = kp.identifier;
        hiding_nonce_commitment = some (s.scalar_base_mult hn);
        binding_nonce_commitment = some (s.scalar_base_mult bn);
      } in
      let n : SigningNonces s.group = record {
        hiding_nonce = hn;
        binding_nonce = bn;
        commitments = c;
      } in
      let en : n ≡ nonces = cc e6 in
      let ec : c ≡ commitments = cc e6 in
      let q : nonces.hiding_nonce ≡ hn =
        ap (λ (t : SigningNonces s.group). t.hiding_nonce) (sym en) in
      let r : nonces.binding_nonce ≡ bn =
        ap (λ (t : SigningNonces s.group). t.binding_nonce) (sym en) in
      (
        h,
        b,
        wrap-eq-ok _ hiding eh,
        wrap-eq-ok _ binding eb,
        q,
        r,
        (λ z. nonzero hn (reject_if-eq-ok _ _ z1) (sym q ∙ z)),
        (λ z. nonzero bn (reject_if-eq-ok _ _ z2) (sym r ∙ z)),
        ap (λ (t : SigningCommitments s.group). t.identifier) (sym ec),
        ap (λ (t : SigningCommitments s.group). t.hiding_nonce_commitment) (sym ec)
            ∙ ap (λ t. some (s.scalar_base_mult t)) (sym q),
        ap (λ (t : SigningCommitments s.group). t.binding_nonce_commitment) (sym ec)
            ∙ ap (λ t. some (s.scalar_base_mult t)) (sym r),
        ap (λ (t : SigningNonces s.group). t.commitments) (sym en) ∙ ec,
      )
