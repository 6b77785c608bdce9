-- ===== src/Errors/Actions.antt =====
-- Fallible methods that change the object they belong to: the result with the object afterwards.
use go_frost.Common.{◌≡◌, ◌≢◌, refl, ap}
use go_frost.Errors.{Result, panic, fail, ok, Error}

abbrev pub Action : Type 0 → Type 0 → Type 0
Action S A = S → Result A × S

module _ {S : Type 0} where
  abbrev pub pure : {A : Type 0} → A → Action S A
  pure a s = (ok a, s)

  -- A call that does not change the object.
  abbrev pub lift : {A : Type 0} → Result A → Action S A
  lift r s = (r, s)

  abbrev pub modify : (S → S) → Action S (Unit {0})
  modify f s = (ok tt, f s)

  abbrev pub then_run : {A B : Type 0} → Result A → (A → Action S B) → Action S B
  then_run panic rest s = (panic, s)
  then_run (fail e) rest s = (fail e, s)
  then_run (ok a) rest s = rest a s

  infixl 5 ◌>>=◌ ◌>>◌
  abbrev pub ◌>>=◌ : {A B : Type 0} → Action S A → (A → Action S B) → Action S B
  (first >>= rest) s = let done = first s in then_run done.0 rest done.1

  abbrev pub ◌>>◌ : {B : Type 0} → Action S (Unit {0}) → Action S B → Action S B
  (first >> rest) = first >>= (λ _. rest)

  pub never_ok :
      {B : Type 0} {r : Result B} {b : B} {u t : S}
      → r ≢ ok b
      → ◌≢◌ {A = Result B × S} (r, u) (ok b, t)
  never_ok n e = n (ap (λ (p : Result _ × S). p.0) e)

  -- When a method returns a value, so did the call before.
  pub then-ok :
      {A B : Type 0} (first : Action S A) (rest : A → Action S B) (s t : S) {b : B}
      → (first >>= rest) s ≡ (ok b, t)
      → (a : A) × (u : S) × (first s ≡ (ok a, u)) × (rest a u ≡ (ok b, t))
  then-ok {A} {B} first rest s t {b} h = go (first s) h
    where
      go :
          (done : Result A × S)
          → then_run done.0 rest done.1 ≡ (ok b, t)
          → (a : A) × (u : S) × (done ≡ (ok a, u)) × (rest a u ≡ (ok b, t))
      go (panic, u) e = absurd (never_ok (λ q. cc q) e)
      go (fail _, u) e = absurd (never_ok (λ q. cc q) e)
      go (ok a, u) e = (a, u, refl, e)

  pub run-ok :
      {A B : Type 0} (first : Action S A) (rest : A → Action S B) (s t : S) {a : A}
      → first s ≡ (ok a, t)
      → (first >>= rest) s ≡ rest a t
  run-ok first rest s t h = ap (λ (done : Result _ × S). then_run done.0 rest done.1) h

  pub run-fail :
      {A B : Type 0} (first : Action S A) (rest : A → Action S B) (s t : S) {e : Error}
      → first s ≡ (fail e, t)
      → (first >>= rest) s ≡ (fail e, t)
  run-fail first rest s t h = ap (λ (done : Result _ × S). then_run done.0 rest done.1) h
