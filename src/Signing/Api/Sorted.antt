-- ===== src/Signing/Api/Sorted.antt =====
-- The exchange sort of `Sign` and `Aggregate` sorts, and commitments with distinct identifiers then
-- pass the validation of the list.
use go_frost.Common.{
  ℕ, zero, suc, ◌≤◌, ◌≡◌, refl, [], ◌∷◌, length, All, Distinct, arith, ltb, Bool-cases, inl, inr,
  All-Permᴰ, Distinct-Permᴰ, Permᴰ-map, length-Permᴰ, ltb→lt, ltb-false→le,
}
use mathlib.Core.List.{Permᴰ}
use go_frost.Encoding.{get_participants, validate_commitment_list}
use go_frost.Encoding.Order.{validate-IsIncreasing}
use go_frost.Encoding.Sorted.{
  IsSorted, sorted→increasing, Increasing, sorted→Increasing, Distinct-get_participants,
}
use go_frost.Errors.{ok}
use go_frost.Group.{Group}
use go_frost.Types.{SigningCommitments, CommitmentList}
use go_frost.Signing.Api.{exchange, exchange_sort, sort_commitment_list}
use mathlib.Core.List.Permᴰ

module _ (g : Group) where
  -- The entry that is left in front, with the others, is a permutation of the list.
  exchange-Permᴰ :
      (x : SigningCommitments g) (ys : CommitmentList g)
      → Permᴰ ((exchange g x ys).0 ∷ (exchange g x ys).1) (x ∷ ys)
  unfolding exchange
  exchange-Permᴰ x [] = Permᴰ.cons refl Permᴰ.nil
  exchange-Permᴰ x (y ∷ ys) = elim (Bool-cases (ltb y.identifier x.identifier)) [
    | inl e ↦ rw e (Permᴰ.trans (Permᴰ.swap refl refl) (Permᴰ.cons refl (exchange-Permᴰ y ys)))
    | inr e ↦ rw e (
        Permᴰ.trans (Permᴰ.swap refl refl)
          (Permᴰ.trans (Permᴰ.cons refl (exchange-Permᴰ x ys)) (Permᴰ.swap refl refl)))
  ]

  exchange-least :
      (x : SigningCommitments g) (ys : CommitmentList g)
      → ((exchange g x ys).0.identifier ≤ x.identifier)
        × All
            (λ (c : SigningCommitments g). (exchange g x ys).0.identifier ≤ c.identifier)
            (exchange g x ys).1
  unfolding exchange
  exchange-least x [] = (omega arith, tt)
  exchange-least x (y ∷ ys) = elim (Bool-cases (ltb y.identifier x.identifier)) [
    | inl e ↦
        let (a, b) = exchange-least y ys in
        let c : (exchange g y ys).0.identifier ≤ x.identifier =
          omega (arith, a, ltb→lt y.identifier x.identifier e) in
        rw e (c, (c, b))
    | inr e ↦
        let (a, b) = exchange-least x ys in
        rw e (a, (omega (arith, a, ltb-false→le y.identifier x.identifier e), b))
  ]

  exchange_sort-Permᴰ : (n : ℕ) (cs : CommitmentList g) → Permᴰ (exchange_sort g n cs) cs
  unfolding exchange_sort
  exchange_sort-Permᴰ zero cs = Permᴰ.refl cs
  exchange_sort-Permᴰ (suc n) [] = Permᴰ.nil
  exchange_sort-Permᴰ (suc n) (c ∷ cs) =
      Permᴰ.trans (Permᴰ.cons refl (exchange_sort-Permᴰ n (exchange g c cs).1))
        (exchange-Permᴰ c cs)

  exchange_sort-IsSorted :
      (n : ℕ) (cs : CommitmentList g) → length cs ≤ n → IsSorted g (exchange_sort g n cs)
  unfolding exchange_sort
  exchange_sort-IsSorted zero [] h = tt
  exchange_sort-IsSorted zero (c ∷ cs) h = absurd (omega arith)
  exchange_sort-IsSorted (suc n) [] h = tt
  exchange_sort-IsSorted (suc n) (c ∷ cs) h = (
    All-Permᴰ _ (exchange_sort-Permᴰ n (exchange g c cs).1) (exchange-least c cs).1,
    exchange_sort-IsSorted n (exchange g c cs).1
        (omega (arith, length-Permᴰ (exchange-Permᴰ c cs), h)),
  )

  -- `sortCommitmentList` returns a permutation of the list, which validation accepts when the list
  -- is not empty and has no identifier twice.
  pub sort_commitment_list-valid :
      (c : SigningCommitments g) (cs : CommitmentList g)
      → Distinct (get_participants g (c ∷ cs))
      → Permᴰ (sort_commitment_list g (c ∷ cs)) (c ∷ cs)
        × (validate_commitment_list g (sort_commitment_list g (c ∷ cs)) ≡ ok tt)
  unfolding sort_commitment_list exchange_sort get_participants
  sort_commitment_list-valid c cs d =
      let p = exchange_sort-Permᴰ (length (c ∷ cs)) (c ∷ cs) in
      (
        p,
        (validate-IsIncreasing g (sort_commitment_list g (c ∷ cs))).1 (
            sorted→increasing g (exchange g c cs).0 _
              (exchange_sort-IsSorted (length (c ∷ cs)) (c ∷ cs) (omega arith))
              (Distinct-Permᴰ (Permᴰ-map (λ c. c.identifier) p) d)),
      )

  pub sort_commitment_list-IsIncreasing :
      (cs : CommitmentList g)
      → Distinct (get_participants g cs)
      → Increasing g (sort_commitment_list g cs)
  unfolding sort_commitment_list
  sort_commitment_list-IsIncreasing cs d =
      sorted→Increasing g _ (exchange_sort-IsSorted (length cs) cs (omega arith))
        (Distinct-get_participants g (exchange_sort-Permᴰ (length cs) cs) d)

  pub sort_commitment_list-Permᴰ : (cs : CommitmentList g) → Permᴰ (sort_commitment_list g cs) cs
  unfolding sort_commitment_list
  sort_commitment_list-Permᴰ cs = exchange_sort-Permᴰ (length cs) cs
