-- ===== src/Keygen/Dkg/Joint.antt =====
-- The coefficients of a sum of polynomials, position by position, and their commitments.
use go_frost.Common.{
  ℕ, zero, suc, ◌≡◌, refl, sym, ap, ap₂, ◌∙◌, List, [], ◌∷◌, map, length, replicate,
  length-replicate, All, arith,
}
use go_frost.Algebra.{Field, ◌⊕◌, ◌⊗◌, zero-add, mul-zero, add_interchange}
use go_frost.Algebra.Sums.{sum}
use go_frost.Algebra.Polynomials.{poly_value}
use go_frost.Errors.{ok}
use go_frost.Group.{Suite, IsPrimeOrder}
use go_frost.Group.Scalars.{scalars, plus-base}
use go_frost.Keygen.Dkg.Rounds.{add_commitment, sum_commitments}
use go_frost.Types.{Identifier}
use mathlib.Core.List.{Permᴰ}

module _ {F : Type 0} ⦃f : Field F⦄ where
  abbrev pub add_terms : List F → List F → List F
  add_terms [] ds = []
  add_terms (c ∷ cs) [] = []
  add_terms (c ∷ cs) (d ∷ ds) = (c ⊕ d) ∷ add_terms cs ds

  add_terms_right_comm :
      (as' bs cs : List F) → add_terms (add_terms as' bs) cs ≡ add_terms (add_terms as' cs) bs
  add_terms_right_comm [] bs cs = refl
  add_terms_right_comm (a ∷ as') [] [] = refl
  add_terms_right_comm (a ∷ as') [] (c ∷ cs) = refl
  add_terms_right_comm (a ∷ as') (b ∷ bs) [] = refl
  add_terms_right_comm (a ∷ as') (b ∷ bs) (c ∷ cs) =
      ap₂ (◌∷◌) (f.add_assoc a b c ∙ ap (f.add a) (f.add_comm b c) ∙ sym (f.add_assoc a c b))
        (add_terms_right_comm as' bs cs)

  length-add_terms :
      (n : ℕ) (cs ds : List F) → length cs ≡ n → length ds ≡ n → length (add_terms cs ds) ≡ n
  length-add_terms n [] ds p q = p
  length-add_terms n (c ∷ cs) [] p q = absurd (omega arith)
  length-add_terms zero (c ∷ cs) (d ∷ ds) p q = absurd (omega arith)
  length-add_terms (suc n) (c ∷ cs) (d ∷ ds) p q =
      ap suc (length-add_terms n cs ds (omega arith) (omega arith))

  pub poly_value-add_terms :
      (n : ℕ) (cs ds : List F) (x : F)
      → length cs ≡ n
      → length ds ≡ n
      → poly_value (add_terms cs ds) x ≡ poly_value cs x ⊕ poly_value ds x
  poly_value-add_terms n [] [] x p q = sym (zero-add f.zero)
  poly_value-add_terms n [] (d ∷ ds) x p q = absurd (omega arith)
  poly_value-add_terms n (c ∷ cs) [] x p q = absurd (omega arith)
  poly_value-add_terms zero (c ∷ cs) (d ∷ ds) x p q = absurd (omega arith)
  poly_value-add_terms (suc n) (c ∷ cs) (d ∷ ds) x p q =
      ap (λ t. c ⊕ d ⊕ x ⊗ t) (poly_value-add_terms n cs ds x (omega arith) (omega arith))
      ∙ ap (f.add (c ⊕ d)) (f.mul-add x _ _)
      ∙ add_interchange c d _ _

  poly_value-zeros : (n : ℕ) (x : F) → poly_value (replicate n f.zero) x ≡ f.zero
  poly_value-zeros zero x = refl
  poly_value-zeros (suc n) x = zero-add _ ∙ ap (f.mul x) (poly_value-zeros n x) ∙ mul-zero x

  module _ {A : Type 0} (poly : A → List F) where
    -- The sum of the polynomials of a list, from the first to the last.
    abbrev pub add_all : List F → List A → List F
    add_all acc [] = acc
    add_all acc (p ∷ ps) = add_all (add_terms acc (poly p)) ps

    pub length-add_all :
        (n : ℕ) (acc : List F) (ps : List A)
        → length acc ≡ n
        → All (λ p. length (poly p) ≡ n) ps
        → length (add_all acc ps) ≡ n
    length-add_all n acc [] p q = p
    length-add_all n acc (x ∷ ps) p q =
        length-add_all n (add_terms acc (poly x)) ps (length-add_terms n acc (poly x) p q.0) q.1

    pub poly_value-add_all :
        (n : ℕ) (acc : List F) (ps : List A) (x : F)
        → length acc ≡ n
        → All (λ p. length (poly p) ≡ n) ps
        → poly_value (add_all acc ps) x ≡ poly_value acc x ⊕ sum ps (λ p. poly_value (poly p) x)
    poly_value-add_all n acc [] x p q = sym (f.add-zero _)
    poly_value-add_all n acc (y ∷ ps) x p q =
        poly_value-add_all n (add_terms acc (poly y)) ps x (length-add_terms n acc (poly y) p q.0)
          q.1
        ∙ ap (λ t. t ⊕ sum ps (λ p. poly_value (poly p) x))
            (poly_value-add_terms n acc (poly y) x p q.0)
        ∙ f.add_assoc _ _ _

    -- All of the polynomials, of `n` coefficients each.
    abbrev pub joint : ℕ → List A → List F
    joint n ps = add_all (replicate n f.zero) ps

    pub poly_value-joint :
        (n : ℕ) (ps : List A) (x : F)
        → All (λ p. length (poly p) ≡ n) ps
        → poly_value (joint n ps) x ≡ sum ps (λ p. poly_value (poly p) x)
    poly_value-joint n ps x q =
        poly_value-add_all n (replicate n f.zero) ps x (length-replicate n f.zero) q
        ∙ ap (λ t. t ⊕ sum ps (λ p. poly_value (poly p) x)) (poly_value-zeros n x)
        ∙ zero-add _

    -- The order of the list does not matter.
    pub add_all-Permᴰ :
        (acc : List F) {ps qs : List A} → Permᴰ ps qs → add_all acc ps ≡ add_all acc qs
    add_all-Permᴰ acc Permᴰ.nil = refl
    add_all-Permᴰ acc (Permᴰ.cons {a = a} {l₁ = l₁} {l₂ = l₂} e d) =
        add_all-Permᴰ (add_terms acc (poly a)) d ∙ ap (λ t. add_all (add_terms acc (poly t)) l₂) e
    add_all-Permᴰ acc (Permᴰ.swap {a = a} {b = b} {l = l} e₁ e₂) =
        ap (λ t. add_all t l) (add_terms_right_comm acc (poly a) (poly b))
        ∙ ap₂ (λ t u. add_all (add_terms (add_terms acc (poly u)) (poly t)) l) e₁ e₂
    add_all-Permᴰ acc (Permᴰ.trans d₁ d₂) = add_all-Permᴰ acc d₁ ∙ add_all-Permᴰ acc d₂

module _ (s : Suite) (l : IsPrimeOrder s.group) where
  instance abbrev field : Field s.Scalar
  field = scalars s.group l

  add_commitment-base :
      (n : ℕ) (es cs : List s.Scalar)
      → length es ≡ n
      → length cs ≡ n
      → add_commitment s (map s.scalar_base_mult es) (map s.scalar_base_mult cs)
        ≡ ok (map s.scalar_base_mult (add_terms es cs))
  unfolding add_commitment
  add_commitment-base n [] cs p q = refl
  add_commitment-base n (e ∷ es) [] p q = absurd (omega arith)
  add_commitment-base zero (e ∷ es) (c ∷ cs) p q = absurd (omega arith)
  add_commitment-base (suc n) (e ∷ es) (c ∷ cs) p q =
      rw (add_commitment-base n es cs (omega arith) (omega arith), plus-base s.group l e c)

  -- The sum of the commitments commits to the sum of the polynomials.
  pub sum_commitments-base :
      {A : Type 0} (id : A → Identifier) (poly : A → List s.Scalar) (n : ℕ) (acc : List s.Scalar)
      (ps : List A)
      → length acc ≡ n
      → All (λ p. length (poly p) ≡ n) ps
      → sum_commitments s
          (map s.scalar_base_mult acc)
          (map (λ p. (id p, map s.scalar_base_mult (poly p))) ps)
        ≡ ok (map s.scalar_base_mult (add_all ⦃f = scalars s.group l⦄ poly acc ps))
  unfolding sum_commitments
  sum_commitments-base id poly n acc [] p q = refl
  sum_commitments-base id poly n acc (x ∷ ps) p q = rw (add_commitment-base n acc (poly x) p q.0) (
      sum_commitments-base id poly n (add_terms acc (poly x)) ps
        (length-add_terms n acc (poly x) p q.0) q.1)
