-- ===== src/Signing/Preprocess/Inputs.antt =====
-- The hash inputs of the deterministic nonces.
use go_frost.Common.{ℕ, ◌%◌, ◌^◌, ◌≡◌, ◌≢◌, ◌↔◌, ap, List, [], ◌∷◌, ◌++◌, length, arith}
use go_frost.Bytes.{Bytes, byte_of}
use go_frost.Signing.Preprocess.{hiding_input, binding_input, index_bytes}

append_cancel : {A : Type 0} (xs : List A) {ys zs : List A} → xs ++ ys ≡ xs ++ zs → ys ≡ zs
append_cancel [] h = h
append_cancel (x ∷ xs) h = append_cancel xs (cc h)

bytes_agree :
    (i j : ℕ)
    → byte_of i 0 ≡ byte_of j 0
    → byte_of i 1 ≡ byte_of j 1
    → byte_of i 2 ≡ byte_of j 2
    → byte_of i 3 ≡ byte_of j 3
    → i % 2 ^ 32 ≡ j % 2 ^ 32
bytes_agree i j a b c d = ground arith

index_bytes_agree : (i j : ℕ) → i % 2 ^ 32 ≡ j % 2 ^ 32 → index_bytes i ≡ index_bytes j
index_bytes_agree i j h =
    let a : byte_of i 0 ≡ byte_of j 0 = ground arith in
    let b : byte_of i 1 ≡ byte_of j 1 = ground arith in
    let c : byte_of i 2 ≡ byte_of j 2 = ground arith in
    let d : byte_of i 3 ≡ byte_of j 3 = ground arith in cc (a, b, c, d)

-- Text after the seed and the index.
input_iff :
    (seed rest : Bytes) (i j : ℕ)
    → (seed ++ (index_bytes i ++ rest) ≡ seed ++ (index_bytes j ++ rest))
      ↔ (i % 2 ^ 32 ≡ j % 2 ^ 32)
input_iff seed rest i j = (
  λ h. let e = append_cancel seed h in bytes_agree i j (cc e) (cc e) (cc e) (cc e),
  λ h. ap (λ t. seed ++ (t ++ rest)) (index_bytes_agree i j h),
)

-- From one seed, two hiding nonces of `PreprocessDeterministic` are hashes of the same input exactly
-- when their indices agree modulo 2 ^ 32, and so are two binding nonces. A hiding and a binding nonce
-- are never hashes of the same input.
pub hiding_input-binding_input :
    (seed : Bytes) (i j : ℕ)
    → ((hiding_input seed i ≡ hiding_input seed j) ↔ (i % 2 ^ 32 ≡ j % 2 ^ 32))
      × ((binding_input seed i ≡ binding_input seed j) ↔ (i % 2 ^ 32 ≡ j % 2 ^ 32))
      × (hiding_input seed i ≢ binding_input seed j)
unfolding hiding_input binding_input
hiding_input-binding_input seed i j = (
  input_iff seed _ i j,
  input_iff seed _ i j,
  λ h. absurd (cc (ap length (append_cancel seed h))),
)
