-- ===== src/Common/Maps.antt =====
-- Go's maps from 32-bit integers, as the lists of their entries: a key stands at most once, and the
-- order of the list is the order in which a loop meets the entries.
use Prim.Native.Nat.{ℕ}
use mathlib.Core.Path.{◌≡◌, sym, ap, ◌∙◌, refl, subst}
use mathlib.Core.Logic.{◌≢◌, inl, inr}
use mathlib.Core.Bool.{false}
use mathlib.Core.Option.{Option, none, some}
use mathlib.Core.List.{List, [], ◌∷◌, ◌++◌, map}
use go_frost.Common.Lists.{Elem, Distinct, All, All-Elem, Elem-map}
use go_frost.Common.Tests.{◌==◌, if◌then◌else◌, Bool-cases, ==→eq, ==_refl, ne→==-false}
use native.Mathlib.Omega.{arith}

module _ {ℓ} {A : Type ℓ} where
  -- The value at a key.
  unfoldable pub look_up : ℕ → List (ℕ × A) → Option A
  look_up id [] = none
  look_up id ((k, a) ∷ rest) = if k == id then some a else look_up id rest

  -- `m[id] = a`.
  unfoldable pub insert : ℕ → A → List (ℕ × A) → List (ℕ × A)
  insert id a [] = (id, a) ∷ []
  insert id a ((k, b) ∷ rest) = if k == id then (k, a) ∷ rest else (k, b) ∷ insert id a rest

  -- `delete(m, id)`.
  unfoldable pub erase : ℕ → List (ℕ × A) → List (ℕ × A)
  erase id [] = []
  erase id ((k, a) ∷ rest) = if k == id then erase id rest else (k, a) ∷ erase id rest

  pub look_up-erase : (id : ℕ) (m : List (ℕ × A)) → look_up id (erase id m) ≡ none
  unfolding look_up erase
  look_up-erase id [] = refl
  look_up-erase id ((k, b) ∷ rest) = elim (Bool-cases (k == id)) [
    | inl e ↦ rw e (look_up-erase id rest)
    | inr e ↦ rw (e, e) (look_up-erase id rest)
  ]

  pub look_up-erase_other :
      (id other : ℕ) (m : List (ℕ × A)) → id ≢ other → look_up other (erase id m) ≡ look_up other m
  unfolding look_up erase
  look_up-erase_other id other [] n = refl
  look_up-erase_other id other ((k, b) ∷ rest) n = elim (Bool-cases (k == id)) [
    | inl e ↦
        let q : (k == other) ≡ false = ne→==-false k other (λ p. n (sym (==→eq k id e) ∙ p)) in
        rw (e, q) (look_up-erase_other id other rest n)
    | inr e ↦
        rw e (ap (λ t. if k == other then some b else t) (look_up-erase_other id other rest n))
  ]

  -- What is absent stays so.
  pub look_up-erase_absent :
      (id other : ℕ) (m : List (ℕ × A)) → look_up other m ≡ none → look_up other (erase id m) ≡ none
  look_up-erase_absent id other m h = elim (Bool-cases (id == other)) [
    | inl e ↦ subst (λ k. look_up k (erase id m) ≡ none) (==→eq id other e) (look_up-erase id m)
    | inr e ↦ look_up-erase_other id other m (λ p. ground arith) ∙ h
  ]

  pub look_up-insert : (id : ℕ) (a : A) (m : List (ℕ × A)) → look_up id (insert id a m) ≡ some a
  unfolding look_up insert
  look_up-insert id a [] = rw (==_refl id)
  look_up-insert id a ((k, b) ∷ rest) = elim (Bool-cases (k == id)) [
    | inl e ↦ rw (e, e)
    | inr e ↦ rw (e, e) (look_up-insert id a rest)
  ]

  pub look_up-insert_other :
      (id other : ℕ) (a : A) (m : List (ℕ × A))
      → id ≢ other
      → look_up other (insert id a m) ≡ look_up other m
  unfolding look_up insert
  look_up-insert_other id other a [] n = rw (ne→==-false id other n)
  look_up-insert_other id other a ((k, b) ∷ rest) n = elim (Bool-cases (k == id)) [
    | inl e ↦
        let q : (k == other) ≡ false = ne→==-false k other (λ p. n (sym (==→eq k id e) ∙ p)) in
        rw (e, q)
    | inr e ↦
        rw e (ap (λ t. if k == other then some b else t) (look_up-insert_other id other a rest n))
  ]

module _ {A B : Type 0} (id : A → ℕ) (val : A → B) where
  pub look_up-Elem :
      (ps : List A) (p : A)
      → Distinct (map id ps)
      → Elem p ps
      → look_up (id p) (map (λ q. (id q, val q)) ps) ≡ some (val p)
  unfolding look_up
  look_up-Elem [] p d m = absurd m
  look_up-Elem (q ∷ qs) p d (inl e) = rw (e, ==_refl (id q))
  look_up-Elem (q ∷ qs) p d (inr m) =
      rw (ne→==-false (id q) (id p) (All-Elem (λ y. id q ≢ y) (map id qs) d.0 (Elem-map id qs p m)))
        (look_up-Elem qs p d.1 m)

  -- A new key goes to the end.
  pub insert-new :
      (k : ℕ) (b : B) (ps : List A)
      → All (λ p. id p ≢ k) ps
      → insert k b (map (λ q. (id q, val q)) ps) ≡ map (λ q. (id q, val q)) ps ++ ((k, b) ∷ [])
  unfolding insert
  insert-new k b [] n = refl
  insert-new k b (p ∷ ps) n =
      rw (ne→==-false (id p) k n.0) (ap (◌∷◌ (id p, val p)) (insert-new k b ps n.1))
