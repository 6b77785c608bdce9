-- ===== src/Encoding/Sorted.antt =====
-- Commitment lists in order: sorted ones, strictly increasing ones, and that a set of commitments has
-- only one strictly increasing list.
use go_frost.Common.{
  ℕ, ◌<◌, ◌≤◌, ◌≡◌, ◌≢◌, refl, sym, ap, ap₂, inl, inr, [], ◌∷◌, All, All-Elem, All-of_Elem,
  All-Permᴰ, Elem, Distinct, Distinct-Permᴰ, Permᴰ-map, arith, subst, All-map, All-imp,
}
use mathlib.Core.List.{Permᴰ}
use go_frost.Encoding.{get_participants, Identifier}
use go_frost.Encoding.Order.{IncreasingAfter, IsIncreasing}
use go_frost.Group.{Group}
use go_frost.Types.{SigningCommitments, CommitmentList}
use mathlib.Core.List.Permᴰ

lt_of_ne : (a b : ℕ) → a ≤ b → a ≢ b → a < b
lt_of_ne a b h n = omega arith

module _ (g : Group) where
  abbrev pub IsSorted : CommitmentList g → Type 0
  IsSorted [] = Unit
  IsSorted (c ∷ cs) =
      All (λ (d : SigningCommitments g). c.identifier ≤ d.identifier) cs × IsSorted cs

  pub sorted→increasing :
      (c : SigningCommitments g) (cs : CommitmentList g)
      → IsSorted (c ∷ cs)
      → Distinct (get_participants g (c ∷ cs))
      → IncreasingAfter c.identifier (get_participants g cs)
  unfolding get_participants
  sorted→increasing c [] h d = tt
  sorted→increasing c (e ∷ cs) h d =
      (lt_of_ne c.identifier e.identifier h.0.0 d.0.0, sorted→increasing e cs h.1 d.1)

  -- Every entry has a smaller identifier than those after it.
  abbrev pub Increasing : CommitmentList g → Type 0
  Increasing [] = Unit
  Increasing (c ∷ cs) =
      All (λ (d : SigningCommitments g). c.identifier < d.identifier) cs × Increasing cs

  pub sorted→Increasing :
      (cs : CommitmentList g) → IsSorted cs → Distinct (get_participants g cs) → Increasing cs
  unfolding get_participants
  sorted→Increasing [] h d = tt
  sorted→Increasing (c ∷ cs) h d = (strict cs h.0 d.0, sorted→Increasing cs h.1 d.1)
    where
      strict :
          (ds : CommitmentList g)
          → All (λ (d : SigningCommitments g). c.identifier ≤ d.identifier) ds
          → All (λ i. c.identifier ≢ i) (get_participants g ds)
          → All (λ (d : SigningCommitments g). c.identifier < d.identifier) ds
      strict [] a n = tt
      strict (d ∷ ds) a n = (lt_of_ne c.identifier d.identifier a.0 n.0, strict ds a.1 n.1)

  pub Increasing-Distinct :
      (cs : CommitmentList g) → Increasing cs → Distinct (get_participants g cs)
  unfolding get_participants
  Increasing-Distinct [] h = tt
  Increasing-Distinct (c ∷ cs) h = (
    All-map (λ i. c.identifier ≢ i) (λ d. d.identifier) cs (All-imp cs (λ d b e. omega arith) h.0),
    Increasing-Distinct cs h.1,
  )

  Increasing→after :
      (c : SigningCommitments g) (cs : CommitmentList g)
      → Increasing (c ∷ cs)
      → IncreasingAfter c.identifier (get_participants g cs)
  unfolding get_participants
  Increasing→after c [] h = tt
  Increasing→after c (d ∷ cs) h = (h.0.0, Increasing→after d cs h.1)

  pub after→Increasing :
      (p : Identifier) (cs : CommitmentList g)
      → IncreasingAfter p (get_participants g cs)
      → All (λ (c : SigningCommitments g). p < c.identifier) cs × Increasing cs
  unfolding get_participants
  after→Increasing p [] h = (tt, tt)
  after→Increasing p (c ∷ cs) h =
      let (a, b) = after→Increasing c.identifier cs h.1 in
      ((h.0, All-imp cs (λ d k. omega (arith, h.0)) a), (a, b))

  pub IsIncreasing→Increasing :
      (cs : CommitmentList g) → IsIncreasing (get_participants g cs) → Increasing cs
  unfolding get_participants
  IsIncreasing→Increasing [] h = tt
  IsIncreasing→Increasing (c ∷ cs) h = after→Increasing c.identifier cs h

  pub Distinct-get_participants :
      {cs ds : CommitmentList g}
      → Permᴰ cs ds
      → Distinct (get_participants g ds)
      → Distinct (get_participants g cs)
  unfolding get_participants
  Distinct-get_participants p d = Distinct-Permᴰ (Permᴰ-map (λ c. c.identifier) p) d

  -- All entries of the first list stand in the second.
  abbrev Within : CommitmentList g → CommitmentList g → Type 0
  Within cs ds = All (λ c. Elem c ds) cs

  smaller :
      (p : ℕ) (c : SigningCommitments g) (cs : CommitmentList g)
      → All (λ (d : SigningCommitments g). p < d.identifier) cs
      → Elem c cs
      → p < c.identifier
  smaller p c cs h m = All-Elem (λ (d : SigningCommitments g). p < d.identifier) cs h m

  same_head :
      (c d : SigningCommitments g) (cs ds : CommitmentList g)
      → Increasing (c ∷ cs)
      → Increasing (d ∷ ds)
      → Elem c (d ∷ ds)
      → Elem d (c ∷ cs)
      → c ≡ d
  same_head c d cs ds h k (inl e) n = e
  same_head c d cs ds h k (inr m) (inl e) = sym e
  same_head c d cs ds h k (inr m) (inr n) =
      absurd (omega (arith, smaller d.identifier c ds k.0 m, smaller c.identifier d cs h.0 n))

  Within-tail :
      (c : SigningCommitments g) (ds es : CommitmentList g)
      → All (λ (e : SigningCommitments g). c.identifier < e.identifier) es
      → Within es (c ∷ ds)
      → Within es ds
  Within-tail c ds [] h w = tt
  Within-tail c ds (e ∷ es) h (inl q, w) =
      absurd (let t = ap (λ (x : SigningCommitments g). x.identifier) q in omega (arith, t, h.0))
  Within-tail c ds (e ∷ es) h (inr m, w) = (m, Within-tail c ds es h.1 w)

  Increasing-unique :
      (cs ds : CommitmentList g)
      → Increasing cs
      → Increasing ds
      → Within cs ds
      → Within ds cs
      → cs ≡ ds
  Increasing-unique [] [] h k v w = refl
  Increasing-unique [] (d ∷ ds) h k v w = absurd w.0
  Increasing-unique (c ∷ cs) [] h k v w = absurd v.0
  Increasing-unique (c ∷ cs) (d ∷ ds) h k v w =
      let e = same_head c d cs ds h k v.0 w.0 in
      let v' : Within cs ds =
        Within-tail d ds cs
          (subst (λ t. All (λ (x : SigningCommitments g). t.identifier < x.identifier) cs) e h.0)
          v.1 in
      let w' : Within ds cs =
        Within-tail c cs ds
          (subst (λ t. All (λ (x : SigningCommitments g). t.identifier < x.identifier) ds) (sym e)
            k.0)
          w.1 in
      ap₂ (λ a b. a ∷ b) e (Increasing-unique cs ds h.1 k.1 v' w')

  -- Two strictly increasing permutations of one list are equal.
  pub Increasing-Permᴰ :
      {cs ds : CommitmentList g} → Permᴰ cs ds → Increasing cs → Increasing ds → cs ≡ ds
  Increasing-Permᴰ p h k =
      Increasing-unique _ _ h k (All-Permᴰ _ p (All-of_Elem _ _ (λ a m. m)))
        (All-Permᴰ _ (Permᴰ.symm p) (All-of_Elem _ _ (λ a m. m)))
