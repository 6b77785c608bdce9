-- ===== src/Tests/ToyLaws.antt =====
-- The laws of the toy group, decided on all its elements.
use go_frost.Common.{
  ◌≡◌, refl, ap, Bool, true, ◌&&◌, arith, subst, Bool-cases, inl, inr, ◌≢◌, ◌↔◌, List, [], ◌∷◌,
}
use go_frost.Tests.Toy.{
  F7, f0, f1, f2, f3, f4, f5, f6, val, of, add, equal, mul, bytes, inv, toy, look_up, everything,
  equal_bytes, neg,
}
use std.HLevel.{hedberg}
use go_frost.Errors.{ok, ◌>>=◌}
use go_frost.Bytes.{Bytes, one_bytes, little_endian}
use go_frost.Group.{IsPrimeOrder}

abbrev every : (F7 → Bool) → Bool
every p = p f0 && (p f1 && (p f2 && (p f3 && (p f4 && (p f5 && p f6)))))

every-all : (p : F7 → Bool) → every p ≡ true → (a : F7) → p a ≡ true
every-all p h f0 = ground arith
every-all p h f1 = ground arith
every-all p h f2 = ground arith
every-all p h f3 = ground arith
every-all p h f4 = ground arith
every-all p h f5 = ground arith
every-all p h f6 = ground arith

of-val : (a : F7) → of (val a) ≡ a
of-val f0 = refl
of-val f1 = refl
of-val f2 = refl
of-val f3 = refl
of-val f4 = refl
of-val f5 = refl
of-val f6 = refl

pub equal-≡ : (a b : F7) → equal a b ≡ true → a ≡ b
equal-≡ a b h = cc (of-val a, of-val b, ap of (val-equal a b h))
  where
    val-equal : (a b : F7) → equal a b ≡ true → val a ≡ val b
    val-equal a b h = ground arith

pub equal-refl_toy : (a : F7) → equal a a ≡ true
equal-refl_toy a = every-all (λ a. equal a a) refl a

-- Two unary, binary or ternary operations agree when the tests do.
pub law₁ : (f g : F7 → F7) → every (λ a. equal (f a) (g a)) ≡ true → (a : F7) → f a ≡ g a
law₁ f g h a = equal-≡ (f a) (g a) (every-all (λ a. equal (f a) (g a)) h a)

law₂ :
    (f g : F7 → F7 → F7)
    → every (λ a. every (λ b. equal (f a b) (g a b))) ≡ true
    → (a b : F7) → f a b ≡ g a b
law₂ f g h a b = law₁ (f a) (g a) (every-all (λ a. every (λ b. equal (f a b) (g a b))) h a) b

law₃ :
    (f g : F7 → F7 → F7 → F7)
    → every (λ a. every (λ b. every (λ c. equal (f a b c) (g a b c)))) ≡ true
    → (a b c : F7) → f a b c ≡ g a b c
law₃ f g h a b c =
    law₂ (f a) (g a) (every-all (λ a. every (λ b. every (λ c. equal (f a b c) (g a b c)))) h a) b c

pub add_assoc_toy : (a b c : F7) → add (add a b) c ≡ add a (add b c)
add_assoc_toy = law₃ (λ a b c. add (add a b) c) (λ a b c. add a (add b c)) refl

pub add_comm_toy : (a b : F7) → add a b ≡ add b a
add_comm_toy = law₂ add (λ a b. add b a) refl

pub mul_assoc_toy : (a b c : F7) → mul (mul a b) c ≡ mul a (mul b c)
mul_assoc_toy = law₃ (λ a b c. mul (mul a b) c) (λ a b c. mul a (mul b c)) refl

pub mul_comm_toy : (a b : F7) → mul a b ≡ mul b a
mul_comm_toy = law₂ mul (λ a b. mul b a) refl

pub mul-add_toy : (a b c : F7) → mul a (add b c) ≡ add (mul a b) (mul a c)
mul-add_toy = law₃ (λ a b c. mul a (add b c)) (λ a b c. add (mul a b) (mul a c)) refl

pub inv_toy : (a : F7) → a ≢ f0 → (b : F7) × (inv a ≡ ok b) × (mul a b ≡ f1)
inv_toy f0 n = absurd (n refl)
inv_toy f1 n = (f1, refl, refl)
inv_toy f2 n = (f4, refl, refl)
inv_toy f3 n = (f5, refl, refl)
inv_toy f4 n = (f2, refl, refl)
inv_toy f5 n = (f3, refl, refl)
inv_toy f6 n = (f6, refl, refl)

pub equal_toy : (a b : F7) → (equal a b ≡ true) ↔ (a ≡ b)
equal_toy a b = (equal-≡ a b, λ e. subst (λ c. equal a c ≡ true) e (equal-refl_toy a))

pub discrete_toy : (a b : F7) → Dec (a ≡ b)
discrete_toy a b = elim (Bool-cases (equal a b)) [
  | inl t ↦ yes (equal-≡ a b t)
  | inr f ↦ no (λ e. cc ((equal_toy a b).1 e, f))
]

pub equal_bytes-≡ : (as' bs : Bytes) → equal_bytes as' bs ≡ true → as' ≡ bs
equal_bytes-≡ [] [] h = refl
equal_bytes-≡ [] (b ∷ bs) h = cc
equal_bytes-≡ (a ∷ as') [] h = cc
equal_bytes-≡ (a ∷ as') (b ∷ bs) h = grind (arith, equal_bytes-≡ as' bs)

pub look_up-canonical : (l : List F7) (bs : Bytes) (s : F7) → look_up l bs ≡ ok s → bytes s ≡ bs
look_up-canonical [] bs s h = cc
look_up-canonical (a ∷ l) bs s h = elim (Bool-cases (equal_bytes (bytes a) bs)) [
  | inl e ↦ cc (rw e at h, equal_bytes-≡ (bytes a) bs e)
  | inr e ↦ look_up-canonical l bs s (rw e at h)
]

pub one-ne-zero_toy : f1 ≢ f0
one-ne-zero_toy h = cc

pub deserialize_one_toy : (one_bytes little_endian 4 >>= look_up everything) ≡ ok f1
unfolding one_bytes
deserialize_one_toy = refl

abbrev pub laws : IsPrimeOrder toy
laws = record {
  one = f1;
  neg = neg;
  scalar_set = hedberg discrete_toy;
  add_assoc = add_assoc_toy;
  add_comm = add_comm_toy;
  add-zero = law₁ (λ a. add a f0) (λ a. a) refl;
  add-neg = law₁ (λ a. add a (neg a)) (λ a. f0) refl;
  sub_lem = λ a b. refl;
  mul_assoc = mul_assoc_toy;
  mul_comm = mul_comm_toy;
  mul-one = law₁ (λ a. mul a f1) (λ a. a) refl;
  mul-add = mul-add_toy;
  one-ne-zero = one-ne-zero_toy;
  inv_lem = inv_toy;
  equal_iff = equal_toy;
  is_zero_iff = λ a. equal_toy a f0;
  same_iff = equal_toy;
  is_identity_iff = λ a. equal_toy a f0;
  base-zero = refl;
  mult-base = λ a b. refl;
  base-add = λ a b. refl;
  base_injective = λ a b h. h;
  length_bound = omega arith;
  deserialize_canonical = look_up-canonical everything;
  deserialize_one = deserialize_one_toy;
}
