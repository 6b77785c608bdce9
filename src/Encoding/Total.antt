-- ===== src/Encoding/Total.antt =====
-- Whether `Encode` returns: it panics exactly when a nonce commitment is nil.
use go_frost.Common.{
  ◌-◌, ◌≡◌, ◌≢◌, ◌⊎◌, inl, inr, refl, ◌∙◌, none, [], ◌∷◌, ◌++◌, All, Option-cases, ◌↔◌,
}
use go_frost.Bytes.{Bytes}
use go_frost.Bytes.Inverse.{layout, identifier_bytes-layout}
use go_frost.Errors.{ok, panic}
use go_frost.Group.{Group, IsPrimeOrder}
use go_frost.Types.{SigningCommitments, CommitmentList}
use go_frost.Encoding.{encode_loop, encode}

module _ (g : Group) (l : IsPrimeOrder g) where
  -- Both nonce commitments are there.
  abbrev pub IsPresent : SigningCommitments g → Type 0
  IsPresent c = (c.hiding_nonce_commitment ≢ none) × (c.binding_nonce_commitment ≢ none)

  encode_step :
      (result : Bytes) (c : SigningCommitments g) (cs : CommitmentList g)
      → ((r : Bytes) × IsPresent c × (encode_loop g result (c ∷ cs) ≡ encode_loop g r cs))
        ⊎ ((¬ IsPresent c) × (encode_loop g result (c ∷ cs) ≡ panic))
  unfolding encode_loop
  encode_step result c cs =
      let e = identifier_bytes-layout g.byte_order g.scalar_length c.identifier l.length_bound in
      elim (Option-cases c.hiding_nonce_commitment) [
        | inl ph ↦ inr ((λ p. p.0 ph), rw (e, ph))
        | inr (h, ph) ↦ elim (Option-cases c.binding_nonce_commitment) [
          | inl pb ↦ inr ((λ p. p.1 pb), rw (e, ph, pb))
          | inr (b, pb) ↦ inl (
            ((result ++ layout g.byte_order (g.scalar_length - 4) c.identifier)
                  ++ g.element_bytes h)
                ++ g.element_bytes b,
            ((λ z. cc (z, ph)), (λ z. cc (z, pb))),
            rw (e, ph, pb),
          )
        ]
      ]

  encode_loop-present :
      (result : Bytes) (cs : CommitmentList g)
      → All IsPresent cs
      → (r : Bytes) × (encode_loop g result cs ≡ ok r)
  encode_loop-present result [] p = (result, unfold encode_loop in refl)
  encode_loop-present result (c ∷ cs) p = elim (encode_step result c cs) [
    | inl (r, _, e) ↦ let (r', e') = encode_loop-present r cs p.1 in (r', e ∙ e')
    | inr (n, _) ↦ absurd (n p.0)
  ]

  encode_loop-panic :
      (result : Bytes) (cs : CommitmentList g)
      → ¬ All IsPresent cs
      → encode_loop g result cs ≡ panic
  encode_loop-panic result [] n = absurd (n tt)
  encode_loop-panic result (c ∷ cs) n = elim (encode_step result c cs) [
    | inl (r, pc, e) ↦ e ∙ encode_loop-panic r cs (λ p. n (pc, p))
    | inr (_, e) ↦ e
  ]

  pub encode-present :
      (cs : CommitmentList g) → All IsPresent cs → (r : Bytes) × (encode g cs ≡ ok r)
  unfolding encode
  encode-present cs p = encode_loop-present [] cs p

  -- `Encode` panics exactly when a nonce commitment is nil.
  pub encode-panic_iff : (cs : CommitmentList g) → (encode g cs ≡ panic) ↔ (¬ All IsPresent cs)
  unfolding encode
  encode-panic_iff cs =
      (λ h p. let (r, e) = encode_loop-present [] cs p in cc (h, e), encode_loop-panic [] cs)
