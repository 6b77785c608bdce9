-- ===== src/Errors.antt =====
-- The error values of the library (pkg/frost/errors.go), and the result of a fallible call.
pub mod Culprits
pub mod Actions
use go_frost.Common.{
  ℕ, String, Bool, false, true, ◌≡◌, ◌↔◌, refl, List, [], ◌∷◌, Option, none, some, ap,
}

-- The sentinel values; each `errors.New` is distinct from every other.
pub data Sentinel : Type 0 where
  invalid_parameters invalid_participant invalid_commitment invalid_signature_share : Sentinel
  invalid_signature invalid_threshold insufficient_participants duplicate_participant : Sentinel
  invalid_key_share invalid_polynomial deserialization_failed serialization_failed : Sentinel
  identity_element zero_scalar invalid_nonce invalid_binding_factor : Sentinel
  invalid_group_commitment invalid_challenge unsorted_commitments empty_commitment_list : Sentinel
  invalid_configuration : Sentinel

-- An error interface value: a sentinel, one of the structured errors around the error that it
-- wraps, or an error of code outside the library. The library never wraps a nil error.
pub data Error : Type 0 where
  sentinel : Sentinel → Error
  parameter_error : String → String → Error → Error
  participant_error : ℕ → String → Error → Error
  verification_error : String → String → Error → Error
  signature_share_error : List ℕ → String → Error → Error
  proof_of_knowledge_error : ℕ → String → Error → Error
  secret_share_error : ℕ → String → Error → Error
  foreign : String → Error

-- What a call comes to: a run-time panic, an error that is returned, or a value that is returned.
pub data Result {ℓ} (A : Type ℓ) : Type ℓ where
  panic : Result A
  fail : Error → Result A
  ok : A → Result A

infixl 5 ◌>>=◌ ◌>>◌
-- The rest of a function after a call whose error it returns as it is.
abbrev pub ◌>>=◌ {ℓ ℓ'} : {A : Type ℓ} {B : Type ℓ'} → Result A → (A → Result B) → Result B
panic >>= rest = panic
fail e >>= rest = fail e
ok a >>= rest = rest a

-- The rest after a check.
abbrev pub ◌>>◌ {ℓ} : {B : Type ℓ} → Result (Unit {0}) → Result B → Result B
check >> rest = check >>= (λ _. rest)

-- `if cond { return ..., err }`.
abbrev pub reject_if : Bool → Error → Result (Unit {0})
reject_if true e = fail e
reject_if false e = ok tt

-- `if !cond { return ..., err }`.
abbrev pub accept_if : Bool → Error → Result (Unit {0})
accept_if true e = ok tt
accept_if false e = fail e

pub accept_if_iff : (b : Bool) (e : Error) → (accept_if b e ≡ ok tt) ↔ (b ≡ true)
accept_if_iff true e = (λ h. refl, λ h. refl)
accept_if_iff false e = (λ h. cc, λ h. cc)

-- `if err != nil { return ..., wrap(err) }`.
abbrev pub wrap {ℓ} : {A : Type ℓ} → (Error → Error) → Result A → Result A
wrap f (ok a) = ok a
wrap f (fail e) = fail (f e)
wrap f panic = panic

-- `v, _ := call()`: the error is dropped, and the nil value panics where it is used.
abbrev pub must {ℓ} : {A : Type ℓ} → Result A → Result A
must (ok a) = ok a
must (fail e) = panic
must panic = panic

-- A call on a nil interface value panics.
abbrev pub deref {ℓ} : {A : Type ℓ} → Option A → Result A
deref none = panic
deref (some a) = ok a

-- `if x == nil { return ..., err }`.
abbrev pub require {ℓ} : {A : Type ℓ} → Option A → Error → Result A
require none e = fail e
require (some a) e = ok a

pub require-eq-ok {ℓ} :
    {A : Type ℓ} (o : Option A) (e : Error) {a : A} → require o e ≡ ok a → o ≡ some a
require-eq-ok none e h = cc
require-eq-ok (some a) e h = ap some (cc h)

-- When a function returns a value, so did the call before.
pub bind-eq-ok {ℓ ℓ'} :
    {A : Type ℓ} {B : Type ℓ'} {b : B} (call : Result A) (rest : A → Result B)
    → (call >>= rest) ≡ ok b
    → (a : A) × (call ≡ ok a) × (rest a ≡ ok b)
bind-eq-ok panic rest e = cc
bind-eq-ok (fail _) rest e = cc
bind-eq-ok (ok a) rest e = (a, refl, e)

pub wrap-eq-ok {ℓ} :
    {A : Type ℓ} (f : Error → Error) (m : Result A) {a : A} → wrap f m ≡ ok a → m ≡ ok a
wrap-eq-ok f (ok a) h = h
wrap-eq-ok f (fail e) h = cc
wrap-eq-ok f panic h = cc

pub reject_if-eq-ok : (b : Bool) (e : Error) → reject_if b e ≡ ok tt → b ≡ false
reject_if-eq-ok true e h = cc
reject_if-eq-ok false e h = refl

pub ok_injective {ℓ} : {A : Type ℓ} {a b : A} → ok a ≡ ok b → a ≡ b
ok_injective h = cc h
