-- ===== src/Signing/Preprocess.antt =====
-- Nonces that are made before the message is known (pkg/frost/signing/preprocess.go). A count that is
-- not positive is 0; `rng k` is the result of the `k`-th call of `RandomScalar`. What is zeroized on
-- an error is not returned.
pub mod Inputs
pub mod Drawn
use go_frost.Common.{
  ℕ, zero, suc, ◌+◌, ◌*◌, ◌==◌, Option, none, some, List, [], ◌∷◌, ◌++◌, map, length,
}
use go_frost.Bytes.{Bytes, byte_of}
use go_frost.Errors.{
  Result, panic, ok, parameter_error, sentinel, Sentinel, ◌>>=◌, ◌>>◌, wrap, require, reject_if,
}
use go_frost.Group.{Group, Suite}
use go_frost.Signing.Binding.{is_empty}
use go_frost.Types.{Identifier, SigningCommitments, SigningNonces}

pub record PreprocessedNonces (g : Group) : Type 0 where
  pub nonces : List (SigningNonces g)
  pub commitments : List (SigningCommitments g)

module _ (g : Group) where
  -- `Len`.
  unfoldable pub nonces_left : PreprocessedNonces g → ℕ
  nonces_left p = length p.nonces

  next_pair :
      List (SigningNonces g)
      → List (SigningCommitments g)
      → Result (Option (SigningNonces g × SigningCommitments g) × PreprocessedNonces g)
  next_pair [] cs = ok (none, record { nonces = []; commitments = cs })
  next_pair (n ∷ ns) [] = panic
  next_pair (n ∷ ns) (c ∷ cs) = ok (some (n, c), record { nonces = ns; commitments = cs })

  -- `Next`: the pair, if there is one, and what is left.
  unfoldable pub next :
      PreprocessedNonces g
      → Result (Option (SigningNonces g × SigningCommitments g) × PreprocessedNonces g)
  unfolding next_pair
  next p = next_pair p.nonces p.commitments

  -- The commitments to two nonces, which may not be the identity.
  unfoldable pub commit_nonces : Identifier → g.Scalar → g.Scalar → Result (SigningNonces g)
  commit_nonces identifier hiding binding = do
    reject_if (g.is_identity (g.scalar_base_mult hiding)) (
        parameter_error "hidingCommitment" "commitment is identity"
          (sentinel Sentinel.identity_element))
    reject_if (g.is_identity (g.scalar_base_mult binding)) (
        parameter_error "bindingCommitment" "commitment is identity"
          (sentinel Sentinel.identity_element))
    ok (record {
      hiding_nonce = hiding;
      binding_nonce = binding;
      commitments = record {
        identifier = identifier;
        hiding_nonce_commitment = some (g.scalar_base_mult hiding);
        binding_nonce_commitment = some (g.scalar_base_mult binding);
      };
    })

  -- `for i := 0; i < count; i++`, from `i` with a number of rounds left.
  unfoldable pub make_nonces :
      (ℕ → Result (SigningNonces g)) → ℕ → ℕ → Result (List (SigningNonces g))
  make_nonces make i zero = ok []
  make_nonces make i (suc n) = do
    nonces ← make i
    rest ← make_nonces make (i + 1) n
    ok (nonces ∷ rest)

  -- What is returned: the nonces, and a copy of the commitments that they hold.
  unfoldable pub with_their_commitments : List (SigningNonces g) → PreprocessedNonces g
  with_their_commitments ns = record { nonces = ns; commitments = map (λ n. n.commitments) ns }

  -- The body of the loop of `Preprocess`.
  unfoldable pub draw_nonces : (ℕ → Result g.Scalar) → Identifier → ℕ → Result (SigningNonces g)
  unfolding commit_nonces
  draw_nonces rng identifier i = do
    hiding ← wrap (parameter_error "hidingNonce" "failed to generate") (rng (2 * i))
    binding ← wrap (parameter_error "bindingNonce" "failed to generate") (rng (2 * i + 1))
    commit_nonces identifier hiding binding

  -- `Preprocess`.
  unfoldable pub preprocess :
      (ℕ → Result g.Scalar) → ℕ → Identifier → Option g.Scalar → Result (PreprocessedNonces g)
  unfolding draw_nonces with_their_commitments
  preprocess rng count identifier secret_share = do
    reject_if (count == 0)
        (parameter_error "count" "must be positive" (sentinel Sentinel.invalid_parameters))
    reject_if (identifier == 0)
        (parameter_error "identifier" "cannot be zero" (sentinel Sentinel.invalid_participant))
    secret ←
        require secret_share
          (parameter_error "secretShare" "cannot be nil" (sentinel Sentinel.invalid_parameters))
    ns ← make_nonces (draw_nonces rng identifier) 0 count
    ok (with_their_commitments ns)

-- The four low bytes of the index, the lowest first.
abbrev pub index_bytes : ℕ → Bytes
index_bytes i = byte_of i 0 ∷ byte_of i 1 ∷ byte_of i 2 ∷ byte_of i 3 ∷ []

-- `hidingInput`: "hiding" stands after the index, and four zero bytes are left at the end.
unfoldable pub hiding_input : Bytes → ℕ → Bytes
hiding_input seed i =
    seed ++ (index_bytes i ++ (104 ∷ 105 ∷ 100 ∷ 105 ∷ 110 ∷ 103 ∷ 0 ∷ 0 ∷ 0 ∷ 0 ∷ []))

-- `bindingInput`, the same with "binding".
unfoldable pub binding_input : Bytes → ℕ → Bytes
binding_input seed i =
    seed ++ (index_bytes i ++ (98 ∷ 105 ∷ 110 ∷ 100 ∷ 105 ∷ 110 ∷ 103 ∷ 0 ∷ 0 ∷ 0 ∷ 0 ∷ []))

module _ (s : Suite) where
  -- The body of the loop of `PreprocessDeterministic`.
  unfoldable pub derive_nonces : Identifier → Bytes → ℕ → Result (SigningNonces s.group)
  unfolding commit_nonces
  derive_nonces identifier seed i =
      commit_nonces s.group identifier (s.h3 (hiding_input seed i)) (s.h3 (binding_input seed i))

  -- `PreprocessDeterministic`.
  unfoldable pub preprocess_deterministic :
      ℕ → Identifier → Bytes → Result (PreprocessedNonces s.group)
  unfolding derive_nonces with_their_commitments
  preprocess_deterministic count identifier seed = do
    reject_if (count == 0)
        (parameter_error "count" "must be positive" (sentinel Sentinel.invalid_parameters))
    reject_if (identifier == 0)
        (parameter_error "identifier" "cannot be zero" (sentinel Sentinel.invalid_participant))
    reject_if (is_empty seed)
        (parameter_error "seed" "cannot be empty" (sentinel Sentinel.invalid_parameters))
    ns ← make_nonces s.group (derive_nonces identifier seed) 0 count
    ok (with_their_commitments s.group ns)
