-- ===== src/Service/Frost/Delegates.antt =====
-- What the service adds to the dealer and the aggregator: nothing but checks that they repeat.
use go_frost.Common.{ℕ, ltb, ◌==◌, not, ◌≡◌, refl, true, Option, none, some, List, length, []}
use go_frost.Bytes.{Bytes}
use go_frost.Errors.{Result, Error, reject_if, ◌>>=◌, ◌>>◌, panic, fail, ok, require}
use go_frost.Group.{Group, Suite}
use go_frost.Keygen.Dealer.{check_ids, generate_shares}
use go_frost.Signing.Aggregator.{verify}
use go_frost.Types.{Identifier, Signature}
use go_frost.Service.Frost.{
  generate_keys, validate_configuration, validate_participant_ids, service_verify,
}

-- Checks that are made a second time.
check_twice :
    {A : Type 0} (a b c d : Result (Unit {0})) (rest : Result A)
    → ((a >> (b >> ok tt)) >> ((c >> d) >> ((a >> (b >> (c >> d))) >> rest)))
      ≡ ((a >> (b >> (c >> d))) >> rest)
check_twice panic b c d rest = refl
check_twice (fail e) b c d rest = refl
check_twice (ok u) panic c d rest = refl
check_twice (ok u) (fail e) c d rest = refl
check_twice (ok u) (ok v) panic d rest = refl
check_twice (ok u) (ok v) (fail e) d rest = refl
check_twice (ok u) (ok v) (ok w) panic rest = refl
check_twice (ok u) (ok v) (ok w) (fail e) rest = refl
check_twice (ok u) (ok v) (ok w) (ok x) rest = refl

require_twice :
    {A B C D : Type 0} (a : Option A) (b : Option B) (c : Option C) (e1 e2 e3 : Error)
    (rest : A → B → C → Result D)
    → (require a e1 >>= (λ _. require b e2 >>= (λ _. require c e3 >>= (λ _.
        require a e1 >>= (λ x. require b e2 >>= (λ y. require c e3 >>= (λ z. rest x y z)))))))
      ≡ (require a e1 >>= (λ x. require b e2 >>= (λ y. require c e3 >>= (λ z. rest x y z))))
require_twice none b c e1 e2 e3 rest = refl
require_twice (some x) none c e1 e2 e3 rest = refl
require_twice (some x) (some y) none e1 e2 e3 rest = refl
require_twice (some x) (some y) (some z) e1 e2 e3 rest = refl

-- `GenerateKeys`, given a group and a list of identifiers, does what the dealer does, errors
-- included.
pub generate_keys-generate_shares :
    (g : Group) (rng : ℕ → Result g.Scalar) (mn mx : ℕ) (ids : List Identifier)
    → generate_keys g rng
        (record { min_signers = mn; max_signers = mx; has_group = true })
        (some ids)
      ≡ generate_shares g rng none mn mx ids
unfolding generate_keys generate_shares validate_configuration validate_participant_ids
generate_keys-generate_shares g rng mn mx ids =
    check_twice (reject_if (ltb mn 2) _) (reject_if (ltb mx mn) _)
      (reject_if (not (length ids == mx)) _) (check_ids [] ids) _

-- `Verify` of the service does what the aggregator's does, errors included.
pub service_verify-verify :
    (s : Suite) (msg : Bytes) (signature : Signature s.group) (public_key : Option s.Element)
    → service_verify s msg signature public_key ≡ verify s msg signature public_key
unfolding service_verify verify
service_verify-verify s msg signature public_key =
    require_twice signature.r signature.z public_key _ _ _ _
