-- ===== src/Bytes.antt =====
-- The fixed-length encodings of an identifier and of the scalar one, which several files write out
-- byte by byte (pkg/frost/helpers/encoding.go, binding.go, polynomial.go, pkg/frost/keygen).
pub mod Inverse
use go_frost.Common.{
  ℕ, zero, suc, ◌+◌, ◌-◌, ◌*◌, ◌/◌, ◌%◌, ◌^◌, List, [], ◌∷◌, length, set, replicate, ltb, ◌==◌,
  if◌then◌else◌,
}
use go_frost.Errors.{Result, ok, panic}

abbrev pub Bytes : Type 0
Bytes = List ℕ

pub data ByteOrder : Type 0 where
  little_endian big_endian : ByteOrder

-- `byte(id >> (8 * j))`.
abbrev pub byte_of : ℕ → ℕ → ℕ
byte_of id j = id / 2 ^ (8 * j) % 256

-- `for j := 0; j < 4 && j < len(b); j++ { b[j] = byte(id >> (8 * j)) }`, from `j` with `k` rounds
-- left; the list is the rest of `b` from index `j`.
abbrev pub write_low : ℕ → ℕ → ℕ → Bytes → Bytes
write_low id j zero bs = bs
write_low id j (suc k) [] = []
write_low id j (suc k) (b ∷ bs) = byte_of id j ∷ write_low id (j + 1) k bs

-- The four writes from the end. Go panics on a negative index.
abbrev pub write_high : ℕ → Bytes → Result Bytes
write_high id bs =
    let n = length bs in
    if ltb n 4
    then panic
    else ok (
        set
          (set (set (set bs (n - 1) (byte_of id 0)) (n - 2) (byte_of id 1)) (n - 3) (byte_of id 2))
          (n - 4) (byte_of id 3))

-- `idBytes`: `scalarLen` zero bytes with the identifier written into them.
unfoldable pub identifier_bytes : ByteOrder → ℕ → ℕ → Result Bytes
identifier_bytes big_endian len id = write_high id (replicate len 0)
identifier_bytes little_endian len id = ok (write_low id 0 4 (replicate len 0))

-- `oneBytes`: the last or the first byte is 1.
unfoldable pub one_bytes : ByteOrder → ℕ → Result Bytes
one_bytes big_endian len = if len == 0 then panic else ok (set (replicate len 0) (len - 1) 1)
one_bytes little_endian len = if len == 0 then panic else ok (set (replicate len 0) 0 1)
