-- ===== src/Signing/Package/Sorted.antt =====
-- The builder of signing packages sorts, and the order in which commitments are added or met in a map
-- does not matter.
use go_frost.Common.{
  ◌<◌, ◌≤◌, ◌≡◌, refl, sym, inl, inr, [], ◌∷◌, ◌++◌, All, All-imp, All-snoc, All-Permᴰ, arith, ltb,
  Bool-cases, ltb→lt, ltb-false→le, subst, reverse,
}
use mathlib.Core.List.{Permᴰ, reverse-cons}
use mathlib.Core.List.Permᴰ
use go_frost.Encoding.Sorted.{IsSorted, Increasing}
use go_frost.Errors.{ok}
use go_frost.Group.{Group}
use go_frost.Types.{SigningCommitments, CommitmentList}
use go_frost.Signing.Package.{check_sorted, shift, insertion_sort, check_neighbours}

module _ (g : Group) where
  -- The entry's identifier is an upper bound of those in the list.
  abbrev IsBound : SigningCommitments g → CommitmentList g → Type 0
  IsBound c cs = All (λ (d : SigningCommitments g). d.identifier ≤ c.identifier) cs

  -- The greatest identifier first.
  abbrev IsDescending : CommitmentList g → Type 0
  IsDescending [] = Unit
  IsDescending (c ∷ cs) = IsBound c cs × IsDescending cs

  shift-Permᴰ :
      (key : SigningCommitments g) (cs : CommitmentList g) → Permᴰ (shift g key cs) (key ∷ cs)
  unfolding shift
  shift-Permᴰ key [] = Permᴰ.refl _
  shift-Permᴰ key (c ∷ cs) = elim (Bool-cases (ltb key.identifier c.identifier)) [
    | inl e ↦ rw e (Permᴰ.trans (Permᴰ.cons refl (shift-Permᴰ key cs)) (Permᴰ.swap refl refl))
    | inr e ↦ rw e (Permᴰ.refl _)
  ]

  shift-IsDescending :
      (key : SigningCommitments g) (cs : CommitmentList g)
      → IsDescending cs
      → IsDescending (shift g key cs)
  unfolding shift
  shift-IsDescending key [] h = (tt, tt)
  shift-IsDescending key (c ∷ cs) h = elim (Bool-cases (ltb key.identifier c.identifier)) [
    | inl e ↦
        let b : key.identifier ≤ c.identifier =
          omega (arith, ltb→lt key.identifier c.identifier e) in
        rw e (All-Permᴰ _ (shift-Permᴰ key cs) (b, h.0), shift-IsDescending key cs h.1)
    | inr e ↦
        let b = ltb-false→le key.identifier c.identifier e in
        rw e ((b, All-imp cs (λ d k. omega arith) h.0), h)
  ]

  IsSorted-snoc :
      (cs : CommitmentList g) (c : SigningCommitments g)
      → IsSorted g cs
      → IsBound c cs
      → IsSorted g (cs ++ (c ∷ []))
  IsSorted-snoc [] c h b = (tt, tt)
  IsSorted-snoc (d ∷ ds) c h b = (All-snoc _ ds c h.0 b.0, IsSorted-snoc ds c h.1 b.1)

  reverse-IsSorted : (cs : CommitmentList g) → IsDescending cs → IsSorted g (reverse cs)
  reverse-IsSorted [] h = tt
  reverse-IsSorted (c ∷ cs) h =
      subst (IsSorted g) (sym (reverse-cons c cs)) (
        IsSorted-snoc (reverse cs) c (reverse-IsSorted cs h.1) (All-Permᴰ _ (Permᴰ.reverse cs) h.0))

  pub insertion_sort-Permᴰ :
      (before rest : CommitmentList g) → Permᴰ (insertion_sort g before rest) (before ++ rest)
  unfolding insertion_sort
  insertion_sort-Permᴰ before [] =
      Permᴰ.trans (Permᴰ.reverse before) (Permᴰ.symm (Permᴰ.append-nil before))
  insertion_sort-Permᴰ before (key ∷ rest) =
      Permᴰ.trans (insertion_sort-Permᴰ (shift g key before) rest) (
        Permᴰ.trans (Permᴰ.append_right rest (shift-Permᴰ key before))
          (Permᴰ.symm (Permᴰ.middle key before rest)))

  pub insertion_sort-IsSorted :
      (before rest : CommitmentList g)
      → IsDescending before
      → IsSorted g (insertion_sort g before rest)
  unfolding insertion_sort
  insertion_sort-IsSorted before [] h = reverse-IsSorted before h
  insertion_sort-IsSorted before (key ∷ rest) h =
      insertion_sort-IsSorted (shift g key before) rest (shift-IsDescending key before h)

  -- On a sorted list neighbours that differ make the list strictly increasing.
  pub neighbours-Increasing :
      (cs : CommitmentList g) → IsSorted g cs → check_neighbours g cs ≡ ok tt → Increasing g cs
  unfolding check_neighbours
  neighbours-Increasing [] h k = tt
  neighbours-Increasing (c ∷ []) h k = (tt, tt)
  neighbours-Increasing (c ∷ d ∷ cs) h k =
      let t = neighbours-Increasing (d ∷ cs) h.1 (ground arith) in
      let b : c.identifier < d.identifier = (let u = h.0.0 in ground arith) in
      ((b, All-imp cs (λ e u. omega arith) t.0), t)

  pub Increasing-neighbours :
      (cs : CommitmentList g) → Increasing g cs → check_neighbours g cs ≡ ok tt
  unfolding check_neighbours
  Increasing-neighbours [] h = refl
  Increasing-neighbours (c ∷ []) h = refl
  Increasing-neighbours (c ∷ d ∷ cs) h =
      let b = h.0.0 in let t = Increasing-neighbours (d ∷ cs) h.1 in ground arith

  pub check_sorted-Increasing :
      (c : SigningCommitments g) (cs : CommitmentList g)
      → check_sorted g c.identifier cs ≡ ok tt
      → Increasing g (c ∷ cs)
  unfolding check_sorted
  check_sorted-Increasing c [] h = (tt, tt)
  check_sorted-Increasing c (d ∷ cs) h =
      let t = check_sorted-Increasing d cs (ground arith) in
      let b : c.identifier < d.identifier = ground arith in
      ((b, All-imp cs (λ e u. omega arith) t.0), t)

  pub Increasing-check_sorted :
      (c : SigningCommitments g) (cs : CommitmentList g)
      → Increasing g (c ∷ cs)
      → check_sorted g c.identifier cs ≡ ok tt
  unfolding check_sorted
  Increasing-check_sorted c [] h = refl
  Increasing-check_sorted c (d ∷ cs) h =
      let b = h.0.0 in let t = Increasing-check_sorted d cs h.1 in ground arith
