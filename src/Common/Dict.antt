-- ===== src/Common/Dict.antt =====
-- Go's maps from strings, as the lists of their entries.
use Prim.Native.String.{String}
use mathlib.Core.Path.{◌≡◌, refl, sym, ap, ◌∙◌, subst}
use mathlib.Core.Logic.{◌≢◌, ◌⊎◌, inl, inr}
use mathlib.Core.Bool.{Bool, true, false}
use mathlib.Core.Option.{Option, none, some}
use mathlib.Core.List.{List, [], ◌∷◌}
use text.Mathlib.Text.{◌==◌ as str_eq}
use text.Mathlib.TextEquality.{eq_iff}
use go_frost.Common.Tests.{if◌then◌else◌, Bool-cases}

-- `s == t`.
abbrev pub same_text : String → String → Bool
same_text = str_eq

pub same_text_refl : (s : String) → same_text s s ≡ true
same_text_refl s = (eq_iff s s).1 refl

pub same_text-eq : (s t : String) → same_text s t ≡ true → s ≡ t
same_text-eq s t = (eq_iff s t).0

pub same_text-false : (s t : String) → s ≢ t → same_text s t ≡ false
same_text-false s t n = elim (Bool-cases (same_text s t)) [
  | inl e ↦ absurd (n (same_text-eq s t e))
  | inr e ↦ e
]

module _ {ℓ} {A : Type ℓ} where
  -- The value at a key.
  unfoldable pub find : String → List (String × A) → Option A
  find k [] = none
  find k ((j, a) ∷ rest) = if same_text j k then some a else find k rest

  -- `delete(m, k)`.
  unfoldable pub remove : String → List (String × A) → List (String × A)
  remove k [] = []
  remove k ((j, a) ∷ rest) = if same_text j k then remove k rest else (j, a) ∷ remove k rest

  -- `m[k] = a`.
  unfoldable pub put : String → A → List (String × A) → List (String × A)
  put k a m = (k, a) ∷ remove k m

  pub find-remove : (k : String) (m : List (String × A)) → find k (remove k m) ≡ none
  unfolding find remove
  find-remove k [] = refl
  find-remove k ((j, b) ∷ rest) = elim (Bool-cases (same_text j k)) [
    | inl e ↦ rw e (find-remove k rest)
    | inr e ↦ rw (e, e) (find-remove k rest)
  ]

  pub find-remove_other :
      (k other : String) (m : List (String × A))
      → k ≢ other
      → find other (remove k m) ≡ find other m
  unfolding find remove
  find-remove_other k other [] n = refl
  find-remove_other k other ((j, b) ∷ rest) n = elim (Bool-cases (same_text j k)) [
    | inl e ↦
        let q : same_text j other ≡ false =
          same_text-false j other (λ p. n (sym (same_text-eq j k e) ∙ p)) in
        rw (e, q) (find-remove_other k other rest n)
    | inr e ↦
        rw e (ap (λ t. if same_text j other then some b else t) (find-remove_other k other rest n))
  ]

  pub find-put : (k : String) (a : A) (m : List (String × A)) → find k (put k a m) ≡ some a
  unfolding find put
  find-put k a m = rw (same_text_refl k)

  pub find-put_other :
      (k other : String) (a : A) (m : List (String × A))
      → k ≢ other
      → find other (put k a m) ≡ find other m
  unfolding find put
  find-put_other k other a m n = rw (same_text-false k other n) (find-remove_other k other m n)

  -- What is absent stays so.
  pub find-remove_absent :
      (k other : String) (m : List (String × A))
      → find other m ≡ none
      → find other (remove k m) ≡ none
  find-remove_absent k other m h = elim (Bool-cases (same_text k other)) [
    | inl e ↦ subst (λ j. find j (remove k m) ≡ none) (same_text-eq k other e) (find-remove k m)
    | inr e ↦
        find-remove_other k other m (λ p. cc (e, sym (same_text_refl k) ∙ ap (same_text k) p)) ∙ h
  ]

pub text-cases : (s t : String) → (s ≡ t) ⊎ (s ≢ t)
text-cases s t = elim (Bool-cases (same_text s t)) [
  | inl e ↦ inl (same_text-eq s t e)
  | inr e ↦ inr (λ p. cc (e, sym (same_text_refl s) ∙ ap (same_text s) p))
]

-- No key stands twice.
abbrev pub Unique : {A : Type 0} → List (String × A) → Type 0
Unique [] = Unit
Unique ((k, a) ∷ m) = (find k m ≡ none) × Unique m

pub remove-Unique :
    {A : Type 0} (k : String) (m : List (String × A)) → Unique m → Unique (remove k m)
unfolding remove
remove-Unique k [] u = tt
remove-Unique k ((j, a) ∷ m) u = elim (Bool-cases (same_text j k)) [
  | inl e ↦ rw e (remove-Unique k m u.1)
  | inr e ↦ rw e (find-remove_absent k j m u.0, remove-Unique k m u.1)
]

pub put-Unique :
    {A : Type 0} (k : String) (a : A) (m : List (String × A)) → Unique m → Unique (put k a m)
unfolding put
put-Unique k a m u = (find-remove k m, remove-Unique k m u)
