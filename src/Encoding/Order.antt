-- ===== src/Encoding/Order.antt =====
-- What `ValidateCommitmentList` accepts.
use go_frost.Common.{ℕ, ◌<◌, ◌≡◌, ◌≢◌, ◌↔◌, List, [], ◌∷◌, All, Distinct, arith, refl}
use go_frost.Errors.{ok}
use go_frost.Group.{Group}
use go_frost.Types.{Identifier, CommitmentList}
use go_frost.Encoding.{get_participants, validate_after, validate_commitment_list}

-- Strictly increasing from a lower bound.
abbrev pub IncreasingAfter : ℕ → List Identifier → Type 0
IncreasingAfter p [] = Unit
IncreasingAfter p (x ∷ xs) = (p < x) × IncreasingAfter x xs

abbrev pub IsIncreasing : List Identifier → Type 0
IsIncreasing [] = ⊥
IsIncreasing (x ∷ xs) = IncreasingAfter x xs

module _ (g : Group) where
  accepted→increasing :
      (p : Identifier) (cs : CommitmentList g)
      → validate_after g p cs ≡ ok tt
      → IncreasingAfter p (get_participants g cs)
  unfolding validate_after get_participants
  accepted→increasing p [] h = tt
  accepted→increasing p (c ∷ cs) h = ground (arith, accepted→increasing c.identifier cs)

  increasing→accepted :
      (p : Identifier) (cs : CommitmentList g)
      → IncreasingAfter p (get_participants g cs)
      → validate_after g p cs ≡ ok tt
  unfolding validate_after get_participants
  increasing→accepted p [] h = refl
  increasing→accepted p (c ∷ cs) h = ground (arith, increasing→accepted c.identifier cs h.1)

  -- A commitment list passes validation exactly when it is not empty and its identifiers increase
  -- strictly.
  pub validate-IsIncreasing :
      (cs : CommitmentList g)
      → (validate_commitment_list g cs ≡ ok tt) ↔ IsIncreasing (get_participants g cs)
  unfolding validate_commitment_list get_participants
  validate-IsIncreasing [] = (λ h. cc, λ h. absurd h)
  validate-IsIncreasing (c ∷ cs) =
      (accepted→increasing c.identifier cs, increasing→accepted c.identifier cs)

above-ne : (p q : ℕ) (xs : List Identifier) → p < q → IncreasingAfter q xs → All (λ y. p ≢ y) xs
above-ne p q [] h i = tt
above-ne p q (x ∷ xs) h i = (omega arith, above-ne p x xs (omega arith) i.1)

pub IncreasingAfter-Distinct :
    (p : ℕ) (xs : List Identifier) → IncreasingAfter p xs → Distinct xs × All (λ y. p ≢ y) xs
IncreasingAfter-Distinct p [] i = (tt, tt)
IncreasingAfter-Distinct p (x ∷ xs) i =
    let (d, n) = IncreasingAfter-Distinct x xs i.1 in
    ((n, d), (omega arith, above-ne p x xs i.0 i.1))

pub IsIncreasing-Distinct : (xs : List Identifier) → IsIncreasing xs → Distinct xs
IsIncreasing-Distinct [] h = absurd h
IsIncreasing-Distinct (x ∷ xs) h = let (d, n) = IncreasingAfter-Distinct x xs h in (n, d)
