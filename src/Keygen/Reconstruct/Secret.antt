-- ===== src/Keygen/Reconstruct/Secret.antt =====
-- Enough shares of a polynomial reconstruct its constant term.
use go_frost.Common.{
  ◌≤◌, ◌≡◌, ◌≢◌, refl, sym, ap, ◌∙◌, some, List, [], ◌∷◌, map, length, length-map, All, All-of_Elem,
  All-Elem, ne→==-false, Option, false, Elem, Elem-map, Distinct, arith,
}
use go_frost.Algebra.{Field, ◌⊕◌, ◌⊗◌, zero-add, zero-mul}
use go_frost.Algebra.Sums.{sum, sum_congr, sum-map}
use go_frost.Algebra.Polynomials.{poly_value}
use go_frost.Algebra.Interpolation.{interpolation}
use go_frost.Encoding.Scalars.{HasScalar, HasScalar-Distinct}
use go_frost.Errors.{ok, Error}
use go_frost.Group.{Group, IsPrimeOrder}
use go_frost.Group.Scalars.{scalars}
use go_frost.Polynomial.{evaluate}
use go_frost.Polynomial.Value.{evaluate-poly_value}
use go_frost.Polynomial.Lagrange.{weight_at_zero, derive-weight}
use go_frost.Keygen.Dealer.{contains}
use go_frost.Types.{Identifier, Polynomial}
use go_frost.Keygen.Reconstruct.{
  Point, to_points, weighted_sum, interpolate_all, recover_secret, check_shares, reconstruct,
}

module _ (g : Group) (l : IsPrimeOrder g) where
  instance abbrev field : Field g.Scalar
  field = scalars g l

  abbrev pub entry : Point g → Identifier × g.Scalar
  entry p = (p.identifier, p.share)

  -- The point carries a participant's share of the polynomial.
  abbrev pub IsShareOf : Polynomial g → Point g → Type 0
  IsShareOf poly p = p.share ≡ evaluate g poly p.x

  abbrev pub HasPointScalar : Point g → Type 0
  HasPointScalar = HasScalar g l (λ p. p.identifier) (λ p. p.x)

  to_points-entry :
      (ps : List (Point g)) → All HasPointScalar ps → to_points g (map entry ps) ≡ ok ps
  unfolding to_points
  to_points-entry [] h = refl
  to_points-entry (p ∷ ps) h = rw (h.0.1, to_points-entry ps h.1)

  weighted_sum-sum :
      (report : Identifier → Error → Error) (xs : List g.Scalar) (acc : g.Scalar)
      (ps : List (Point g))
      → Distinct xs
      → All (λ p. Elem p.x xs) ps
      → weighted_sum g report xs acc ps
        ≡ ok (acc ⊕ sum ps (λ p. p.share ⊗ weight_at_zero g l xs p.x))
  unfolding weighted_sum
  weighted_sum-sum report xs acc [] d m = ap ok (sym (field.add-zero acc))
  weighted_sum-sum report xs acc (p ∷ ps) d m = rw (derive-weight g l xs p.x m.0 d) (
      weighted_sum-sum report xs (g.add acc (g.mul p.share (weight_at_zero g l xs p.x))) ps d m.1
      ∙ ap ok (field.add_assoc acc _ _))

  -- The shares of a polynomial, weighted, sum to its constant term.
  pub lagrange_sum :
      {A : Type 0} (x share : A → g.Scalar) (c : g.Scalar) (cs : List g.Scalar) (ps : List A)
      → All (λ p. share p ≡ evaluate g (c ∷ cs) (x p)) ps
      → Distinct (map x ps)
      → length (c ∷ cs) ≤ length ps
      → sum ⦃f = scalars g l⦄ ps (λ p. g.mul (share p) (weight_at_zero g l (map x ps) (x p))) ≡ c
  lagrange_sum x share c cs ps s d n =
      sum_congr ps _ _ (
        All-of_Elem _ ps (λ p m.
          ap (λ t. t ⊗ weight_at_zero g l (map x ps) (x p))
            (All-Elem (λ q. share q ≡ evaluate g (c ∷ cs) (x q)) ps s m
              ∙ evaluate-poly_value g l (c ∷ cs) (x p))))
      ∙ sym (sum-map x ps (λ xi. poly_value (c ∷ cs) xi ⊗ weight_at_zero g l (map x ps) xi))
      ∙ interpolation g.equal l.equal_iff (map x ps) (c ∷ cs) g.new_scalar d
          (omega (arith, length-map x ps, n))
      ∙ ap (g.add c) (zero-mul _)
      ∙ field.add-zero c

  interpolate_all-constant :
      (report : Identifier → Error → Error) (c : g.Scalar) (cs : List g.Scalar)
      (ps : List (Point g))
      → All HasPointScalar ps
      → All (IsShareOf (c ∷ cs)) ps
      → Distinct (map (λ p. p.identifier) ps)
      → length (c ∷ cs) ≤ length ps
      → interpolate_all g report (map entry ps) ≡ ok c
  unfolding interpolate_all
  interpolate_all-constant report c cs ps h s d n =
      let x : Point g → g.Scalar = λ p. p.x in
      let dx : Distinct (map x ps) = HasScalar-Distinct g l _ x ps h d in
      rw (to_points-entry ps h) (
        weighted_sum-sum report (map x ps) g.new_scalar ps dx
          (All-of_Elem _ ps (λ p m. Elem-map x ps p m))
        ∙ ap ok (zero-add _ ∙ lagrange_sum x (λ p. p.share) c cs ps s dx n))

  -- From at least as many shares of a polynomial as it has coefficients, with distinct identifiers,
  -- `RecoverSecret` returns the constant term, in whatever order the map is walked.
  pub recover_secret-constant :
      (c : g.Scalar) (cs : List g.Scalar) (ps : List (Point g))
      → All HasPointScalar ps
      → All (IsShareOf (c ∷ cs)) ps
      → Distinct (map (λ p. p.identifier) ps)
      → length (c ∷ cs) ≤ length ps
      → recover_secret g (some (map entry ps)) ≡ ok c
  unfolding recover_secret
  recover_secret-constant c cs [] h s d n = absurd (omega arith)
  recover_secret-constant c cs (p ∷ ps) h s d n = interpolate_all-constant _ c cs (p ∷ ps) h s d n

  given : Point g → Identifier × Option g.Scalar
  given p = (p.identifier, some p.share)

  contains-false :
      (id : Identifier) (seen : List Identifier) → All (λ x. x ≢ id) seen → contains id seen ≡ false
  unfolding contains
  contains-false id [] n = refl
  contains-false id (x ∷ xs) n = rw (ne→==-false x id n.0) (contains-false id xs n.1)

  check_shares-entry :
      (seen : List Identifier) (ps : List (Point g))
      → Distinct (map (λ p. p.identifier) ps)
      → All (λ (p : Point g). All (λ x. x ≢ p.identifier) seen) ps
      → check_shares g seen (map given ps) ≡ ok (map entry ps)
  unfolding check_shares given
  check_shares-entry seen [] d n = refl
  check_shares-entry seen (p ∷ ps) d n = rw (
    contains-false p.identifier seen n.0,
    check_shares-entry (p.identifier ∷ seen) ps d.1 (extend ps d.0 n.1),
  )
    where
      extend :
          (qs : List (Point g))
          → All (λ i. p.identifier ≢ i) (map (λ q. q.identifier) qs)
          → All (λ (q : Point g). All (λ x. x ≢ q.identifier) seen) qs
          → All (λ (q : Point g). All (λ x. x ≢ q.identifier) (p.identifier ∷ seen)) qs
      extend [] a b = tt
      extend (q ∷ qs) a b = ((a.0, b.0), extend qs a.1 b.1)

  -- `Reconstruct` is given a slice of shares of a polynomial, at least as many as it has
  -- coefficients, whose identifiers are distinct, fit into 32 bits and have scalars. In whatever order
  -- the shares stand, it returns the constant term of the polynomial.
  pub reconstruct-constant :
      (c : g.Scalar) (cs : List g.Scalar) (ps : List (Point g))
      → All HasPointScalar ps
      → All (IsShareOf (c ∷ cs)) ps
      → Distinct (map (λ p. p.identifier) ps)
      → length (c ∷ cs) ≤ length ps
      → reconstruct g (map (λ p. (p.identifier, some p.share)) ps) ≡ ok c
  unfolding reconstruct given
  reconstruct-constant c cs [] h s d n = absurd (omega arith)
  reconstruct-constant c cs (p ∷ ps) h s d n =
      rw (check_shares-entry [] (p ∷ ps) d (All-of_Elem _ (p ∷ ps) (λ q m. tt)))
        (interpolate_all-constant _ c cs (p ∷ ps) h s d n)
