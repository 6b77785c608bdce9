-- ===== src/Signing/Strategy/Lookup.antt =====
-- What a share is compared with: the lookup maps of a session, and the equation in the scalars.
use go_frost.Common.{
  Bool, true, false, ◌≡◌, ◌≢◌, ◌↔◌, refl, sym, ap, ◌∙◌, some, List, [], ◌∷◌, map, All, Elem,
  Elem-map, Distinct, All-Elem, inl, inr, look_up, insert, look_up-insert, look_up-insert_other,
  iff_trans, iff_sym, subst,
}
use go_frost.Algebra.{Field}
use go_frost.Bytes.{Bytes}
use go_frost.Errors.{ok}
use go_frost.Group.{Suite, IsPrimeOrder}
use go_frost.Group.Scalars.{scalars}
use go_frost.Polynomial.Lagrange.{weight_at_zero, derive-weight}
use go_frost.Types.{Identifier, Polynomial}
use go_frost.Signing.Honest.{Signer, IsHonest, commitment_of, commitments_of, factor_of, factor_at}
use go_frost.Signing.Honest.Sign.{response}
use go_frost.Signing.Honest.Checked.{key_of, share_of, share-equation}
use go_frost.Signing.Strategy.{index_by, share_passes}

module _ {C A B : Type 0} (f : C → A) (key : A → Identifier) (value : A → B) (id : C → Identifier)
    (same_id : (c : C) → key (f c) ≡ id c) where
  index_by-other :
      (k : Identifier) (cs : List C) (m : List (Identifier × B))
      → All (λ i. k ≢ i) (map id cs)
      → look_up k (index_by key value (map f cs) m) ≡ look_up k m
  unfolding index_by
  index_by-other k [] m n = refl
  index_by-other k (c ∷ cs) m n =
      index_by-other k cs (insert (key (f c)) (value (f c)) m) n.1
      ∙ look_up-insert_other (key (f c)) k (value (f c)) m (λ e. n.0 (sym e ∙ same_id c))

  -- With distinct keys the map has every entry of the list.
  index_by-Elem :
      (cs : List C) (c : C) (m : List (Identifier × B))
      → Distinct (map id cs)
      → Elem c cs
      → look_up (id c) (index_by key value (map f cs) m) ≡ some (value (f c))
  unfolding index_by
  index_by-Elem [] c m d e = absurd e
  index_by-Elem (b ∷ cs) c m d (inl e) =
      rw (sym e, sym (same_id c))
        (index_by-other (key (f c)) cs (insert (key (f c)) (value (f c)) m)
            (subst (λ k. All (λ i. k ≢ i) (map id cs)) (ap id (sym e) ∙ sym (same_id c)) d.0)
          ∙ look_up-insert (key (f c)) (value (f c)) m)
  index_by-Elem (b ∷ cs) c m d (inr e) =
      index_by-Elem cs c (insert (key (f b)) (value (f b)) m) d.1 e

same_truth : (a b : Bool) → ((a ≡ true) ↔ (b ≡ true)) → a ≡ b
same_truth true b h = sym (h.0 refl)
same_truth false true h = h.1 refl
same_truth false false h = refl

module _ (s : Suite) (l : IsPrimeOrder s.group) where
  instance abbrev field : Field s.Scalar
  field = scalars s.group l

  pub share_passes-response :
      (poly : Polynomial s.group) (prefix : Bytes) (c : s.Scalar) (all : List (Signer s))
      (p : Signer s) (z : s.Scalar)
      → All (IsHonest s poly) all
      → Distinct (map (λ p. p.identifier) all)
      → Distinct (map (λ p. p.x) all)
      → Elem p all
      → share_passes s
          (index_by (λ v. v.identifier) (λ v. v.verification_key) (map (key_of s) all) [])
          (index_by (λ f. f.identifier) (λ f. f.binding_factor) (map (factor_of s prefix) all) [])
          (index_by (λ c. c.identifier) (λ c. c) (commitments_of s all) [])
          (map (λ p. p.x) all)
          c
          (share_of s l p z)
        ≡ ok (s.equal z (response s l prefix all c p).signature_share)
  unfolding share_passes
  share_passes-response poly prefix c all p z h d dx m =
      rw
        (
          index_by-Elem (key_of s) (λ v. v.identifier) (λ v. v.verification_key) (λ p. p.identifier)
              (λ p. refl) all p [] d m,
          index_by-Elem (factor_of s prefix) (λ f. f.identifier) (λ f. f.binding_factor)
              (λ p. p.identifier) (λ p. refl) all p [] d m,
          index_by-Elem (commitment_of s) (λ c. c.identifier) (λ c. c) (λ p. p.identifier)
              (λ p. refl) all p [] d m,
          (All-Elem (IsHonest s poly) all h m).has_scalar,
          derive-weight s.group l _ p.x (Elem-map (λ (p : Signer s). p.x) all p m) dx,
        )
        (ap ok (
          same_truth _ _ (
            iff_trans
              (share-equation s l z p.hiding p.binding (factor_at s prefix p.identifier) p.share c
                (weight_at_zero s.group l (map (λ q. q.x) all) p.x))
              (iff_sym (l.equal_iff z _)))))
