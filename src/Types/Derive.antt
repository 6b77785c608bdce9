-- ===== src/Types/Derive.antt =====
-- `DeriveIdentifier` (pkg/frost/identifier.go).
use go_frost.Common.{
  ℕ, ◌+◌, ◌-◌, ◌*◌, ◌≤◌, ◌≡◌, ◌≢◌, refl, zero, suc, [], ◌∷◌, length, ◌==◌, if◌then◌else◌, arith,
  Bool-cases, inl, inr,
}
use go_frost.Bytes.{Bytes, ByteOrder, little_endian, big_endian}
use go_frost.Errors.{Result, ok, fail, panic, parameter_error, sentinel, Sentinel, ◌>>=◌}
use go_frost.Group.{Suite}
use go_frost.Types.{Identifier}

-- `binary.BigEndian.Uint32` and `binary.LittleEndian.Uint32` of the first four bytes: a slice that is
-- too short panics.
unfoldable pub uint32_big : Bytes → Result ℕ
uint32_big (a ∷ b ∷ c ∷ d ∷ rest) = ok (a * 16777216 + b * 65536 + c * 256 + d)
uint32_big _ = panic

unfoldable pub uint32_little : Bytes → Result ℕ
uint32_little (a ∷ b ∷ c ∷ d ∷ rest) = ok (a + b * 256 + c * 65536 + d * 16777216)
uint32_little _ = panic

-- `b[offset:]`.
unfoldable pub drop_bytes : ℕ → Bytes → Bytes
drop_bytes zero bs = bs
drop_bytes (suc n) [] = []
drop_bytes (suc n) (b ∷ bs) = drop_bytes n bs

-- The four bytes that the byte order makes the low ones.
unfoldable pub low_bytes : ByteOrder → Bytes → Result ℕ
low_bytes big_endian bs = uint32_big (drop_bytes (length bs - 4) bs)
low_bytes little_endian bs = uint32_little bs

unfoldable pub derive_identifier : Suite → Bytes → Result Identifier
derive_identifier s [] =
    fail (parameter_error "data" "cannot be empty" (sentinel Sentinel.invalid_parameters))
derive_identifier s (b ∷ bs) = do
  id ← low_bytes s.byte_order (s.bytes (s.hid (b ∷ bs)))
  ok (if id == 0 then 1 else id)

uint32_big-ok : (bs : Bytes) → 4 ≤ length bs → (n : ℕ) × (uint32_big bs ≡ ok n)
unfolding uint32_big
uint32_big-ok [] h = absurd (omega arith)
uint32_big-ok (a ∷ []) h = absurd (omega arith)
uint32_big-ok (a ∷ b ∷ []) h = absurd (omega arith)
uint32_big-ok (a ∷ b ∷ c ∷ []) h = absurd (omega arith)
uint32_big-ok (a ∷ b ∷ c ∷ d ∷ rest) h = (_, refl)

uint32_little-ok : (bs : Bytes) → 4 ≤ length bs → (n : ℕ) × (uint32_little bs ≡ ok n)
unfolding uint32_little
uint32_little-ok [] h = absurd (omega arith)
uint32_little-ok (a ∷ []) h = absurd (omega arith)
uint32_little-ok (a ∷ b ∷ []) h = absurd (omega arith)
uint32_little-ok (a ∷ b ∷ c ∷ []) h = absurd (omega arith)
uint32_little-ok (a ∷ b ∷ c ∷ d ∷ rest) h = (_, refl)

length-drop_bytes : (n : ℕ) (bs : Bytes) → length (drop_bytes n bs) ≡ length bs - n
unfolding drop_bytes
length-drop_bytes zero bs = omega arith
length-drop_bytes (suc n) [] = omega arith
length-drop_bytes (suc n) (b ∷ bs) = omega (arith, length-drop_bytes n bs)

low_bytes-ok : (o : ByteOrder) (bs : Bytes) → 4 ≤ length bs → (n : ℕ) × (low_bytes o bs ≡ ok n)
unfolding low_bytes
low_bytes-ok big_endian bs h =
    uint32_big-ok (drop_bytes (length bs - 4) bs)
      (omega (arith, length-drop_bytes (length bs - 4) bs, h))
low_bytes-ok little_endian bs h = uint32_little-ok bs h

not_zero : (n : ℕ) → (if n == 0 then 1 else n) ≢ 0
not_zero n = elim (Bool-cases (n == 0)) [ inl e ↦ λ q. ground arith | inr e ↦ λ q. ground arith ]

-- From data that is not empty, a suite whose scalars take at least four bytes derives an identifier
-- that is not zero: a zero hash is replaced.
pub derive_identifier-nonzero :
    (s : Suite) (b : ℕ) (bs : Bytes)
    → 4 ≤ length (s.bytes (s.hid (b ∷ bs)))
    → (id : Identifier) × (derive_identifier s (b ∷ bs) ≡ ok id) × (id ≢ 0)
unfolding derive_identifier
derive_identifier-nonzero s b bs h =
    let (n, e) = low_bytes-ok s.byte_order (s.bytes (s.hid (b ∷ bs))) h in
    ((if n == 0 then 1 else n), rw e, not_zero n)
