-- ===== src/Types/Identifiers.antt =====
-- `Identifier.Serialize`, `DeserializeIdentifier` and `IsValid` (pkg/frost/types.go).
use go_frost.Common.{◌+◌, ◌*◌, ◌^◌, ◌<◌, ◌≡◌, Bool, [], ◌∷◌, arith, ◌==◌, not, if◌then◌else◌}
use go_frost.Bytes.{Bytes, byte_of}
use go_frost.Errors.{Result, ok, fail, parameter_error, sentinel, Sentinel}
use go_frost.Types.{Identifier}

unfoldable pub serialize : Identifier → Bytes
serialize id = byte_of id 3 ∷ byte_of id 2 ∷ byte_of id 1 ∷ byte_of id 0 ∷ []

-- Shifts of bytes into disjoint places: `|` is `+`.
unfoldable pub deserialize_identifier : Bytes → Result Identifier
deserialize_identifier (a ∷ b ∷ c ∷ d ∷ []) =
    let id = a * 16777216 + b * 65536 + c * 256 + d in
    if id == 0
    then fail
        (parameter_error "identifier" "cannot be zero" (sentinel Sentinel.invalid_participant))
    else ok id
deserialize_identifier _ =
    fail
      (parameter_error "data" "must be exactly 4 bytes" (sentinel Sentinel.deserialization_failed))

unfoldable pub is_valid : Identifier → Bool
is_valid id = not (id == 0)

-- Every identifier but zero survives its serialization, and zero is refused.
pub deserialize-serialize :
    (id : Identifier)
    → id < 2 ^ 32
    → deserialize_identifier (serialize id) ≡ (
        if is_valid id
        then ok id
        else fail
            (parameter_error "identifier" "cannot be zero" (sentinel Sentinel.invalid_participant)))
unfolding deserialize_identifier serialize is_valid
deserialize-serialize id h = ground arith
