-- ===== src/Tests/Toy.antt =====
-- The field of seven elements, taken as a group with generator 1, and a ciphersuite on it.
use go_frost.Common.{
  ℕ, zero, suc, ◌+◌, ◌*◌, ◌-◌, ◌%◌, Bool, true, false, ◌&&◌, ◌==◌, List, [], ◌∷◌, length,
  if◌then◌else◌,
}
use go_frost.Bytes.{Bytes, little_endian}
use go_frost.Errors.{Result, ok, fail, Sentinel, sentinel}
use go_frost.Group.{Group, Suite}

pub data F7 : Type 0 where
  f0 f1 f2 f3 f4 f5 f6 : F7

abbrev pub val : F7 → ℕ
val f0 = 0
val f1 = 1
val f2 = 2
val f3 = 3
val f4 = 4
val f5 = 5
val f6 = 6

abbrev pub next : F7 → F7
next f0 = f1
next f1 = f2
next f2 = f3
next f3 = f4
next f4 = f5
next f5 = f6
next f6 = f0

abbrev pub of : ℕ → F7
of zero = f0
of (suc n) = next (of n)

abbrev pub add : F7 → F7 → F7
add a b = of ((val a + val b) % 7)

abbrev pub neg : F7 → F7
neg a = of ((7 - val a) % 7)

abbrev pub mul : F7 → F7 → F7
mul a b = of (val a * val b % 7)

abbrev pub equal : F7 → F7 → Bool
equal a b = val a == val b

-- The inverse of zero is an error.
abbrev pub inv : F7 → Result F7
inv f0 = fail (sentinel Sentinel.zero_scalar)
inv f1 = ok f1
inv f2 = ok f4
inv f3 = ok f5
inv f4 = ok f2
inv f5 = ok f3
inv f6 = ok f6

abbrev pub bytes : F7 → Bytes
bytes a = val a ∷ 0 ∷ 0 ∷ 0 ∷ []

abbrev pub equal_bytes : Bytes → Bytes → Bool
equal_bytes [] [] = true
equal_bytes (a ∷ as') (b ∷ bs) = a == b && equal_bytes as' bs
equal_bytes _ _ = false

abbrev pub look_up : List F7 → Bytes → Result F7
look_up [] bs = fail (sentinel Sentinel.deserialization_failed)
look_up (a ∷ as') bs = if equal_bytes (bytes a) bs then ok a else look_up as' bs

abbrev pub everything : List F7
everything = f0 ∷ f1 ∷ f2 ∷ f3 ∷ f4 ∷ f5 ∷ f6 ∷ []

abbrev pub toy : Group
toy = record {
  Scalar = F7;
  Element = F7;
  add = add;
  sub = λ a b. add a (neg b);
  mul = mul;
  inv = inv;
  is_zero = λ a. equal a f0;
  equal = equal;
  bytes = bytes;
  plus = add;
  is_identity = λ a. equal a f0;
  same = equal;
  element_bytes = bytes;
  identity = f0;
  new_scalar = f0;
  scalar_mult = mul;
  scalar_base_mult = λ a. a;
  deserialize_scalar = look_up everything;
  element_length = 4;
  scalar_length = 4;
  byte_order = little_endian;
}

-- A checksum for a hash.
abbrev pub checksum : ℕ → Bytes → ℕ
checksum w [] = 1
checksum w (b ∷ bs) = (w * b + checksum (w + 1) bs) % 7

abbrev pub suite : Suite
suite = record {
  group = toy;
  h1 = λ b. of (checksum 1 b);
  h2 = λ b. of (checksum 2 b);
  h3 = λ b. of (checksum 3 b);
  h4 = λ b. length b ∷ [];
  h5 = λ b. checksum 4 b ∷ [];
  hdkg = λ b. of (checksum 5 b);
  hid = λ b. of (checksum 6 b);
}
