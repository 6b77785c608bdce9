-- ===== src/Bytes/Inverse.antt =====
-- The encoding of an identifier has the length of a scalar and determines the identifier.
use go_frost.Common.{
  ℕ, zero, suc, ◌+◌, ◌-◌, ◌^◌, ◌≤◌, ◌<◌, ◌≡◌, refl, ap, ◌∙◌, [], ◌∷◌, ◌++◌, length, arith,
  replicate, set, le→ltb-false, ne→==-false, length-append, length-replicate,
}
use go_frost.Errors.{ok}
use go_frost.Bytes.{
  Bytes, ByteOrder, little_endian, big_endian, byte_of, write_high, identifier_bytes, one_bytes,
}

-- Four base-256 digits determine a 32-bit number.
eq_of_bytes :
    (a b : ℕ)
    → a < 2 ^ 32
    → b < 2 ^ 32
    → byte_of a 0 ≡ byte_of b 0
    → byte_of a 1 ≡ byte_of b 1
    → byte_of a 2 ≡ byte_of b 2
    → byte_of a 3 ≡ byte_of b 3
    → a ≡ b
eq_of_bytes a b ha hb e0 e1 e2 e3 = omega arith

abbrev four_zeros : Bytes
four_zeros = 0 ∷ 0 ∷ 0 ∷ 0 ∷ []

replicate-split : (n : ℕ) → replicate (suc (suc (suc (suc n)))) (zero) ≡ replicate n 0 ++ four_zeros
replicate-split zero = refl
replicate-split (suc n) = ap (◌∷◌ 0) (replicate-split n)

set-replicate :
    (n i k v : ℕ) (ys : Bytes)
    → i ≡ n + k
    → set (replicate n 0 ++ ys) i v ≡ replicate n 0 ++ set ys k v
set-replicate zero i k v ys e = let p : i ≡ k = omega arith in ap (λ j. set ys j v) p
set-replicate (suc n) zero k v ys e = absurd (omega arith)
set-replicate (suc n) (suc i) k v ys e = ap (◌∷◌ 0) (set-replicate n i k v ys (omega arith))

write_high_lem :
    (id n : ℕ)
    → write_high id (replicate n 0 ++ four_zeros)
      ≡ ok (replicate n 0 ++ (byte_of id 3 ∷ byte_of id 2 ∷ byte_of id 1 ∷ byte_of id 0 ∷ []))
write_high_lem id n =
    let m : ℕ = length (replicate n 0 ++ four_zeros) in
    let e : m ≡ n + 4 =
      length-append (replicate n 0) four_zeros ∙ ap (λ t. t + 4) (length-replicate n 0) in
    rw (
      le→ltb-false m 4 (omega arith),
      set-replicate n (m - 1) 3 (byte_of id 0) four_zeros (omega arith),
      set-replicate n (m - 2) 2 (byte_of id 1) (0 ∷ 0 ∷ 0 ∷ byte_of id 0 ∷ []) (omega arith),
      set-replicate n (m - 3) 1 (byte_of id 2) (0 ∷ 0 ∷ byte_of id 1 ∷ byte_of id 0 ∷ [])
          (omega arith),
      set-replicate n (m - 4) 0 (byte_of id 3) (0 ∷ byte_of id 2 ∷ byte_of id 1 ∷ byte_of id 0 ∷ [])
          (omega arith),
    )

-- What the bytes are, in both orders.
abbrev pub layout : ByteOrder → ℕ → ℕ → Bytes
layout little_endian n id =
    byte_of id 0 ∷ byte_of id 1 ∷ byte_of id 2 ∷ byte_of id 3 ∷ replicate n 0
layout big_endian n id =
    replicate n 0 ++ (byte_of id 3 ∷ byte_of id 2 ∷ byte_of id 1 ∷ byte_of id 0 ∷ [])

pub identifier_bytes-layout :
    (o : ByteOrder) (len id : ℕ) → 4 ≤ len → identifier_bytes o len id ≡ ok (layout o (len - 4) id)
unfolding identifier_bytes
identifier_bytes-layout little_endian len id h =
    ap (λ n. identifier_bytes little_endian n id) {y = suc (suc (suc (suc (len - 4))))}
      (omega arith)
identifier_bytes-layout big_endian len id h =
    ap (λ n. identifier_bytes big_endian n id) {y = suc (suc (suc (suc (len - 4))))} (omega arith)
    ∙ ap (write_high id) (replicate-split (len - 4))
    ∙ write_high_lem id (len - 4)

pub length-layout : (o : ByteOrder) (n id : ℕ) → length (layout o n id) ≡ n + 4
length-layout little_endian n id = omega (arith, length-replicate n (zero))
length-layout big_endian n id =
    length-append (replicate n 0) _ ∙ ap (λ t. t + 4) (length-replicate n 0)

append_cancel : (n : ℕ) {xs ys : Bytes} → (replicate n 0 ++ xs) ≡ (replicate n 0 ++ ys) → xs ≡ ys
append_cancel zero h = h
append_cancel (suc n) h = append_cancel n (cc)

pub layout_injective :
    (o : ByteOrder) (n a b : ℕ) → a < 2 ^ 32 → b < 2 ^ 32 → layout o n a ≡ layout o n b → a ≡ b
layout_injective little_endian n a b ha hb h = eq_of_bytes a b ha hb (cc) (cc) (cc) (cc)
layout_injective big_endian n a b ha hb h =
    let e = append_cancel n h in eq_of_bytes a b ha hb (cc e) (cc e) (cc e) (cc e)

-- The bytes of the scalar one are those of the identifier 1.
pub one_bytes-layout :
    (o : ByteOrder) (len : ℕ) → 4 ≤ len → one_bytes o len ≡ ok (layout o (len - 4) 1)
unfolding one_bytes
one_bytes-layout little_endian len h =
    let e : len ≡ suc (suc (suc (suc (len - 4)))) = omega arith in
    rw (ne→==-false len 0 (omega arith)) (ap (λ m. ok (set (replicate m 0) 0 1)) e)
one_bytes-layout big_endian len h = rw (ne→==-false len 0 (omega arith)) (
    ap (λ m. ok (set (replicate m 0) (len - 1) 1)) {y = suc (suc (suc (suc (len - 4))))}
      (omega arith)
    ∙ ap (λ l. ok (set l (len - 1) 1)) (replicate-split (len - 4))
    ∙ ap ok (set-replicate (len - 4) (len - 1) 3 1 four_zeros (omega arith)))
