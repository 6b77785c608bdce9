-- ===== src/Common/Permutations.antt =====
-- What a permutation keeps.
use Prim.Native.Nat.{suc, ◌≤◌}
use native.Mathlib.Omega.{arith}
use mathlib.Core.Path.{◌≡◌, refl, sym, ap, ◌∙◌, subst}
use mathlib.Core.Logic.{◌≢◌, inl, inr}
use mathlib.Core.List.{List, [], ◌∷◌, map, Permᴰ}
use mathlib.Core.List.Permᴰ
use go_frost.Common.Lists.{All, Distinct, length, Elem, All-Elem, All-of_Elem, All-imp}

pub All-Permᴰ {κ} :
    {A : Type 0} (P : A → Type κ) {xs ys : List A} → Permᴰ xs ys → All P ys → All P xs
All-Permᴰ P Permᴰ.nil h = tt
All-Permᴰ P (Permᴰ.cons e d) h = (subst P (sym e) h.0, All-Permᴰ P d h.1)
All-Permᴰ P (Permᴰ.swap e₁ e₂) h = (subst P (sym e₁) h.1.0, (subst P (sym e₂) h.0, h.1.1))
All-Permᴰ P (Permᴰ.trans d₁ d₂) h = All-Permᴰ P d₁ (All-Permᴰ P d₂ h)

pub Permᴰ-map :
    {A B : Type 0} (f : A → B) {xs ys : List A} → Permᴰ xs ys → Permᴰ (map f xs) (map f ys)
Permᴰ-map f Permᴰ.nil = Permᴰ.nil
Permᴰ-map f (Permᴰ.cons e d) = Permᴰ.cons (ap f e) (Permᴰ-map f d)
Permᴰ-map f (Permᴰ.swap e₁ e₂) = Permᴰ.swap (ap f e₁) (ap f e₂)
Permᴰ-map f (Permᴰ.trans d₁ d₂) = Permᴰ.trans (Permᴰ-map f d₁) (Permᴰ-map f d₂)

-- A permutation of the images of a list is the list of the images of a permutation.
pub Permᴰ-map_inverse :
    {A B : Type 0} (f : A → B) {xs ys : List B} (ps : List A)
    → Permᴰ xs ys
    → ys ≡ map f ps
    → (qs : List A) × Permᴰ qs ps × (xs ≡ map f qs)
Permᴰ-map_inverse f [] Permᴰ.nil h = ([], Permᴰ.nil, refl)
Permᴰ-map_inverse f (p ∷ ps) Permᴰ.nil h = absurd (cc h)
Permᴰ-map_inverse f [] (Permᴰ.cons e d) h = absurd (cc h)
Permᴰ-map_inverse f (p ∷ ps) (Permᴰ.cons e d) h =
    let (qs, r, q) = Permᴰ-map_inverse f ps d (cc h) in (p ∷ qs, Permᴰ.cons refl r, cc (e, h, q))
Permᴰ-map_inverse f [] (Permᴰ.swap e₁ e₂) h = absurd (cc h)
Permᴰ-map_inverse f (p ∷ []) (Permᴰ.swap e₁ e₂) h = absurd (cc h)
Permᴰ-map_inverse f (p ∷ q ∷ ps) (Permᴰ.swap e₁ e₂) h =
    (q ∷ p ∷ ps, Permᴰ.swap refl refl, cc (e₁, e₂, h))
Permᴰ-map_inverse f ps (Permᴰ.trans d₁ d₂) h =
    let (ms, r, q) = Permᴰ-map_inverse f ps d₂ h in
    let (qs, r', q') = Permᴰ-map_inverse f ms d₁ q in (qs, Permᴰ.trans r' r, q')

pub Distinct-Permᴰ : {A : Type 0} {xs ys : List A} → Permᴰ xs ys → Distinct ys → Distinct xs
Distinct-Permᴰ Permᴰ.nil h = tt
Distinct-Permᴰ (Permᴰ.cons {a = a} {l₂ = l₂} e d) h =
    (All-Permᴰ (λ y. a ≢ y) d (subst (λ b. All (λ y. b ≢ y) l₂) (sym e) h.0), Distinct-Permᴰ d h.1)
Distinct-Permᴰ (Permᴰ.swap {l = l} e₁ e₂) h = (
  (λ e. h.0.0 (sym e₂ ∙ sym e ∙ e₁), subst (λ b. All (λ y. b ≢ y) l) (sym e₁) h.1.0),
  (subst (λ b. All (λ y. b ≢ y) l) (sym e₂) h.0.1, h.1.1),
)
Distinct-Permᴰ (Permᴰ.trans d₁ d₂) h = Distinct-Permᴰ d₁ (Distinct-Permᴰ d₂ h)

pub length-Permᴰ : {A : Type 0} {xs ys : List A} → Permᴰ xs ys → length xs ≡ length ys
length-Permᴰ Permᴰ.nil = refl
length-Permᴰ (Permᴰ.cons e d) = ap suc (length-Permᴰ d)
length-Permᴰ (Permᴰ.swap e₁ e₂) = refl
length-Permᴰ (Permᴰ.trans d₁ d₂) = length-Permᴰ d₁ ∙ length-Permᴰ d₂

module _ {A : Type 0} where
  pub Elem-Permᴰ : (a : A) {xs ys : List A} → Permᴰ xs ys → Elem a xs → Elem a ys
  Elem-Permᴰ a p m = All-Elem _ _ (All-Permᴰ _ p (All-of_Elem _ _ (λ b k. k))) m

  extract : (a : A) (xs : List A) → Elem a xs → (ys : List A) × Permᴰ xs (a ∷ ys)
  extract a [] m = absurd m
  extract a (x ∷ xs) (inl e) = (xs, Permᴰ.cons (sym e) (Permᴰ.refl xs))
  extract a (x ∷ xs) (inr m) =
      let (ys, p) = extract a xs m in
      (x ∷ ys, Permᴰ.trans (Permᴰ.cons refl p) (Permᴰ.swap refl refl))

  other_than :
      (a : A) (xs ys : List A)
      → All (λ y. a ≢ y) xs
      → All (λ y. Elem y (a ∷ ys)) xs
      → All (λ y. Elem y ys) xs
  other_than a [] ys n m = tt
  other_than a (x ∷ xs) ys n (inl e, m) = absurd (n.0 (sym e))
  other_than a (x ∷ xs) ys n (inr k, m) = (k, other_than a xs ys n.1 m)

  -- Distinct entries of a list that are as many as the list has are a permutation of it.
  pub pigeonhole :
      (xs ys : List A) → Distinct xs → All (λ x. Elem x ys) xs → length ys ≤ length xs → Permᴰ xs ys
  pigeonhole [] [] d m h = Permᴰ.nil
  pigeonhole [] (y ∷ ys) d m h = absurd (omega arith)
  pigeonhole (x ∷ xs) ys d m h =
      let (zs, p) = extract x ys m.0 in
      let k : All (λ y. Elem y zs) xs =
        other_than x xs zs d.0 (All-imp xs (λ y e. Elem-Permᴰ y p e) m.1) in
      Permᴰ.trans (Permᴰ.cons refl (pigeonhole xs zs d.1 k (omega (arith, length-Permᴰ p, h))))
        (Permᴰ.symm p)
