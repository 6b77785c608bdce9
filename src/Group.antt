-- ===== src/Group.antt =====
-- The interfaces `Group`, `Scalar` and `Element` (pkg/frost/group/interface.go) and `Ciphersuite`
-- (pkg/frost/ciphersuite/interface.go). Their implementations stand on third-party curve code, so
-- a suite is a parameter of every other module. Values are immutable: `Copy` is the identity.
pub mod Scalars
use go_frost.Common.{ℕ, Bool, true, ◌≡◌, ◌≢◌, ◌↔◌, ◌≤◌}
use go_frost.Errors.{Result, ok, ◌>>=◌}
use go_frost.Bytes.{Bytes, ByteOrder, one_bytes}

pub record Group : Type 1 where
  pub Scalar : Type 0
  pub Element : Type 0
  -- Scalar
  pub add : Scalar → Scalar → Scalar
  pub sub : Scalar → Scalar → Scalar
  pub mul : Scalar → Scalar → Scalar
  pub inv : Scalar → Result Scalar
  pub is_zero : Scalar → Bool
  pub equal : Scalar → Scalar → Bool
  pub bytes : Scalar → Bytes
  -- Element
  pub plus : Element → Element → Element
  pub is_identity : Element → Bool
  pub same : Element → Element → Bool
  pub element_bytes : Element → Bytes
  -- Group
  pub identity : Element
  pub new_scalar : Scalar
  pub scalar_mult : Element → Scalar → Element
  pub scalar_base_mult : Scalar → Element
  pub deserialize_scalar : Bytes → Result Scalar
  pub element_length : ℕ
  pub scalar_length : ℕ
  pub byte_order : ByteOrder

-- What the interface documents: scalars are a field, decoded canonically and in at least four
-- bytes; elements are a group on which scalars act, and the generator has the order of the field.
pub record IsPrimeOrder (g : Group) : Type 0 where
  pub one : g.Scalar
  pub neg : g.Scalar → g.Scalar
  pub scalar_set : IsSet g.Scalar
  pub add_assoc : (a b c : g.Scalar) → g.add (g.add a b) c ≡ g.add a (g.add b c)
  pub add_comm : (a b : g.Scalar) → g.add a b ≡ g.add b a
  pub add-zero : (a : g.Scalar) → g.add a g.new_scalar ≡ a
  pub add-neg : (a : g.Scalar) → g.add a (neg a) ≡ g.new_scalar
  pub sub_lem : (a b : g.Scalar) → g.sub a b ≡ g.add a (neg b)
  pub mul_assoc : (a b c : g.Scalar) → g.mul (g.mul a b) c ≡ g.mul a (g.mul b c)
  pub mul_comm : (a b : g.Scalar) → g.mul a b ≡ g.mul b a
  pub mul-one : (a : g.Scalar) → g.mul a one ≡ a
  pub mul-add : (a b c : g.Scalar) → g.mul a (g.add b c) ≡ g.add (g.mul a b) (g.mul a c)
  pub one-ne-zero : one ≢ g.new_scalar
  pub inv_lem :
      (a : g.Scalar) → a ≢ g.new_scalar → (b : g.Scalar) × (g.inv a ≡ ok b) × (g.mul a b ≡ one)
  pub equal_iff : (a b : g.Scalar) → (g.equal a b ≡ true) ↔ (a ≡ b)
  pub is_zero_iff : (a : g.Scalar) → (g.is_zero a ≡ true) ↔ (a ≡ g.new_scalar)
  pub same_iff : (p q : g.Element) → (g.same p q ≡ true) ↔ (p ≡ q)
  pub is_identity_iff : (p : g.Element) → (g.is_identity p ≡ true) ↔ (p ≡ g.identity)
  pub base-zero : g.scalar_base_mult g.new_scalar ≡ g.identity
  pub mult-base :
      (a b : g.Scalar) → g.scalar_mult (g.scalar_base_mult a) b ≡ g.scalar_base_mult (g.mul a b)
  pub base-add :
      (a b : g.Scalar)
      → g.scalar_base_mult (g.add a b) ≡ g.plus (g.scalar_base_mult a) (g.scalar_base_mult b)
  pub base_injective : (a b : g.Scalar) → g.scalar_base_mult a ≡ g.scalar_base_mult b → a ≡ b
  pub length_bound : 4 ≤ g.scalar_length
  pub deserialize_canonical :
      (b : Bytes) (s : g.Scalar) → g.deserialize_scalar b ≡ ok s → g.bytes s ≡ b
  pub deserialize_one : (one_bytes g.byte_order g.scalar_length >>= g.deserialize_scalar) ≡ ok one

pub record Suite : Type 1 where
  pub group : Group
  pub open group use *
  pub h1 : Bytes → Scalar
  pub h2 : Bytes → Scalar
  pub h3 : Bytes → Scalar
  pub h4 : Bytes → Bytes
  pub h5 : Bytes → Bytes
  pub hdkg : Bytes → Scalar
  pub hid : Bytes → Scalar
