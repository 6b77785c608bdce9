-- ===== src/Errors/Culprits.antt =====
-- `Unwrap`, `errors.Is` against a sentinel, `errors.As` for a `CulpritError`, and `GetCulprits`
-- (pkg/frost/errors.go).
use go_frost.Common.{ℕ, List, [], ◌∷◌, ◌++◌, Option, none, some}
use go_frost.Errors.{
  Sentinel, Error, sentinel, parameter_error, participant_error, verification_error,
  signature_share_error, proof_of_knowledge_error, secret_share_error, foreign,
}

unfoldable pub unwrap : Error → Option Error
unwrap (parameter_error _ _ e) = some e
unwrap (participant_error _ _ e) = some e
unwrap (verification_error _ _ e) = some e
unwrap (signature_share_error _ _ e) = some e
unwrap (proof_of_knowledge_error _ _ e) = some e
unwrap (secret_share_error _ _ e) = some e
unwrap _ = none

-- `Culprits`, where the error has the method.
unfoldable pub culprits : Error → Option (List ℕ)
culprits (participant_error id _ _) = some (id ∷ [])
culprits (signature_share_error ids _ _) = some ids
culprits (proof_of_knowledge_error id _ _) = some (id ∷ [])
culprits (secret_share_error id _ _) = some (id ∷ [])
culprits _ = none

-- `errors.As` walks the chain of wrapped errors and stops at the first with the method.
unfoldable pub get_culprits : Error → List ℕ
get_culprits (sentinel _) = []
get_culprits (foreign _) = []
get_culprits (parameter_error _ _ e) = get_culprits e
get_culprits (verification_error _ _ e) = get_culprits e
get_culprits (participant_error id _ _) = id ∷ []
get_culprits (signature_share_error ids _ _) = ids
get_culprits (proof_of_knowledge_error id _ _) = id ∷ []
get_culprits (secret_share_error id _ _) = id ∷ []

-- `AddCulprit` appends to the list that the error holds.
unfoldable pub add_culprit : Error → ℕ → Error
add_culprit (signature_share_error ids reason e) id =
    signature_share_error (ids ++ id ∷ []) reason e
add_culprit e _ = e

-- The sentinel at the end of the chain, which is what `errors.Is` finds.
abbrev pub root : Error → Option Sentinel
root (sentinel s) = some s
root (foreign _) = none
root (parameter_error _ _ e) = root e
root (participant_error _ _ e) = root e
root (verification_error _ _ e) = root e
root (signature_share_error _ _ e) = root e
root (proof_of_knowledge_error _ _ e) = root e
root (secret_share_error _ _ e) = root e
