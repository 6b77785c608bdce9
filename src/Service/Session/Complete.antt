-- ===== src/Service/Session/Complete.antt =====
-- What a session gives back: the commitment list once everyone has committed, and never a signature.
use go_frost.Common.{
  ◌≡◌, ◌≢◌, refl, sym, false, ltb, ltb-false→le, List, [], ◌∷◌, map, length, All, All-map, Distinct,
  Elem, arith, subst, pigeonhole, Distinct-Permᴰ, Permᴰ-map, length-map, ap₂,
}
use mathlib.Core.List.{Permᴰ}
use go_frost.Errors.{ok, bind-eq-ok, reject_if, reject_if-eq-ok, ok_injective}
use go_frost.Encoding.{get_participants}
use go_frost.Encoding.Sorted.{Increasing, sorted→Increasing, Distinct-get_participants}
use go_frost.Group.{Group}
use go_frost.Types.{Identifier, CommitmentList, Signature}
use go_frost.Signing.Package.{insertion_sort}
use go_frost.Signing.Package.Sorted.{insertion_sort-Permᴰ, insertion_sort-IsSorted}
use go_frost.Service.Session.{SigningSession, get_commitment_list, get_signature, aggregate_session}
use go_frost.Service.Session.Steps.{Reached, Reached-IsValid}
use mathlib.Core.List.Permᴰ

own_keys :
    {A : Type 0} (id : A → Identifier) (m : List (Identifier × A))
    → All (λ e. id e.1 ≡ e.0) m
    → map id (map (λ e. e.1) m) ≡ map (λ e. e.0) m
own_keys id [] h = refl
own_keys id (e ∷ m) h = ap₂ (λ a b. a ∷ b) h.0 (own_keys id m h.1)

module _ (g : Group) where
  listed : CommitmentList g → CommitmentList g
  listed cs = insertion_sort g [] cs

  -- When `GetCommitmentList` returns a list, no participant of the session stands twice, and the
  -- list has a commitment of each, in strictly increasing order.
  pub get_commitment_list-Distinct :
      (ids : List Identifier) (s : SigningSession g) (cs : CommitmentList g)
      → Reached g ids s
      → get_commitment_list g s ≡ ok cs
      → Distinct ids × Permᴰ (get_participants g cs) ids × Increasing g cs
  unfolding get_commitment_list get_participants
  get_commitment_list-Distinct ids s cs r h =
      let v = Reached-IsValid g ids s r in
      let x = v.commitments_indexed in
      let (_, _, h1) = bind-eq-ok (reject_if s.is_canceled _) _ h in
      let (_, n, h2) =
        bind-eq-ok (reject_if (ltb (length s.commitments) s.min_participants) _) _ h1 in
      let enough = ltb-false→le (length s.commitments) s.min_participants (reject_if-eq-ok _ _ n) in
      let keys : Permᴰ (map (λ e. e.0) s.commitments) ids =
        pigeonhole (map (λ e. e.0) s.commitments) ids x.keys_distinct
          (All-map (λ k. Elem k ids) (λ e. e.0) s.commitments x.keys_expected)
          (omega (arith, length-map (λ e. e.0) s.commitments, enough, v.threshold)) in
      let perm : Permᴰ (map (λ c. c.identifier) (map (λ e. e.1) s.commitments)) ids =
        subst (λ t. Permᴰ t ids) (sym (own_keys (λ c. c.identifier) s.commitments x.keys_own))
          keys in
      let sorted = insertion_sort-Permᴰ g [] (map (λ e. e.1) s.commitments) in
      let d : Distinct (map (λ c. c.identifier) (map (λ e. e.1) s.commitments)) =
        subst Distinct (sym (own_keys (λ c. c.identifier) s.commitments x.keys_own))
          x.keys_distinct in
      subst (λ t. Distinct ids × Permᴰ (map (λ c. c.identifier) t) ids × Increasing g t)
        (ok_injective h2)
        (
          Distinct-Permᴰ (Permᴰ.symm keys) x.keys_distinct,
          Permᴰ.trans (Permᴰ-map (λ c. c.identifier) sorted) perm,
          sorted→Increasing g _ (insertion_sort-IsSorted g [] _ tt)
              (Distinct-get_participants g sorted d),
        )

  -- No session that is reached gives a signature: `GetSignature` always fails, and the session never
  -- becomes complete, whatever commitments and shares are added.
  pub get_signature-ne-ok :
      (ids : List Identifier) (s : SigningSession g) (signature : Signature g)
      → Reached g ids s
      → (get_signature g s ≢ ok signature) × (s.is_complete ≡ false)
  unfolding get_signature aggregate_session
  get_signature-ne-ok ids s signature r =
      let v = Reached-IsValid g ids s r in
      (
        (λ h.
            let (_, _, h1) = bind-eq-ok (reject_if s.is_canceled _) _ h in
            let (_, _, h2) =
              bind-eq-ok (reject_if (ltb (length s.signature_shares) s.min_participants) _) _
                (rw v.incomplete at h1) in
            cc h2),
        v.incomplete,
      )
