-- ===== src/Signing/Preprocess/Drawn.antt =====
-- What the calls of `Next` return.
use go_frost.Common.{
  ℕ, zero, suc, ◌+◌, ◌≡◌, refl, ap, ◌∙◌, Option, none, some, List, [], ◌∷◌, sym, ◌==◌,
}
use go_frost.Bytes.{Bytes}
use go_frost.Errors.{Result, ok, ◌>>=◌, bind-eq-ok, reject_if, ok_injective}
use go_frost.Group.{Group, Suite}
use go_frost.Types.{Identifier, SigningCommitments, SigningNonces}
use go_frost.Signing.Preprocess.{
  PreprocessedNonces, next, next_pair, make_nonces, with_their_commitments, commit_nonces,
  derive_nonces, hiding_input, binding_input, preprocess_deterministic,
}
use go_frost.Signing.Binding.{is_empty}

module _ (g : Group) where
  abbrev with_drawn : {A : Type 0} → Option A → List A → List A
  with_drawn none rest = rest
  with_drawn (some a) rest = a ∷ rest

  -- A number of calls of `Next`: the pairs that they return, and what is left.
  unfoldable pub draw :
      ℕ
      → PreprocessedNonces g
      → Result (List (SigningNonces g × SigningCommitments g) × PreprocessedNonces g)
  draw zero p = ok ([], p)
  draw (suc n) p = do
    (pair, left) ← next g p
    (pairs, rest) ← draw n left
    ok (with_drawn pair pairs, rest)

  -- Nonces with their commitments.
  abbrev pub nonces_for : Identifier → g.Scalar → g.Scalar → SigningNonces g
  nonces_for id hiding binding = record {
    hiding_nonce = hiding;
    binding_nonce = binding;
    commitments = record {
      identifier = id;
      hiding_nonce_commitment = some (g.scalar_base_mult hiding);
      binding_nonce_commitment = some (g.scalar_base_mult binding);
    };
  }

  commit_nonces-ok :
      (id : Identifier) (hiding binding : g.Scalar) (n : SigningNonces g)
      → commit_nonces g id hiding binding ≡ ok n
      → nonces_for id hiding binding ≡ n
  unfolding commit_nonces
  commit_nonces-ok id hiding binding n h =
      let (_, _, h1) = bind-eq-ok (reject_if (g.is_identity (g.scalar_base_mult hiding)) _) _ h in
      let (_, _, h2) = bind-eq-ok (reject_if (g.is_identity (g.scalar_base_mult binding)) _) _ h1 in
      ok_injective h2

module _ (s : Suite) (id : Identifier) (seed : Bytes) where
  abbrev pub nonces_at : ℕ → SigningNonces s.group
  nonces_at i = nonces_for s.group id (s.h3 (hiding_input seed i)) (s.h3 (binding_input seed i))

  -- The nonces of the indices from `i`, with their commitments.
  abbrev pub derived : ℕ → ℕ → List (SigningNonces s.group × SigningCommitments s.group)
  derived i zero = []
  derived i (suc n) = (nonces_at i, (nonces_at i).commitments) ∷ derived (i + 1) n

  draw-make_nonces :
      (i n : ℕ) (ns : List (SigningNonces s.group))
      → make_nonces s.group (derive_nonces s id seed) i n ≡ ok ns
      → draw s.group n (with_their_commitments s.group ns)
        ≡ ok (derived i n, record { nonces = []; commitments = [] })
  unfolding make_nonces draw with_their_commitments next next_pair derive_nonces
  draw-make_nonces i zero ns h =
      ap (λ t. ok ([], with_their_commitments s.group t)) (sym (ok_injective h))
  draw-make_nonces i (suc n) ns h =
      let (m, h1, e1) = bind-eq-ok (derive_nonces s id seed i) _ h in
      let (rest, h2, e2) =
        bind-eq-ok (make_nonces s.group (derive_nonces s id seed) (i + 1) n) _ e1 in
      let m_is =
        commit_nonces-ok s.group id (s.h3 (hiding_input seed i)) (s.h3 (binding_input seed i)) m
          h1 in
      ap (λ t. draw s.group (suc n) (with_their_commitments s.group t)) (sym (ok_injective e2))
      ∙ ap (λ t. draw s.group (suc n) (with_their_commitments s.group (t ∷ rest))) (sym m_is)
      ∙ ap
          (λ t. t >>= (λ drawn.
            ok (
              with_drawn s.group (some (nonces_at i, (nonces_at i).commitments)) drawn.0,
              drawn.1,
            )))
          (draw-make_nonces (i + 1) n rest h2)

  -- When `PreprocessDeterministic` succeeds, as many calls of `Next` as its count return the nonces
  -- of the indices from 0, in this order and each with its own commitments, and leave nothing, so
  -- that the next call finds no nonces.
  pub draw-preprocess_deterministic :
      (count : ℕ) (p : PreprocessedNonces s.group)
      → preprocess_deterministic s count id seed ≡ ok p
      → (left : PreprocessedNonces s.group) × (draw s.group count p ≡ ok (derived 0 count, left))
        × (next s.group left ≡ ok (none, left))
  unfolding preprocess_deterministic next
  draw-preprocess_deterministic count p h =
      let (_, _, h1) = bind-eq-ok (reject_if (count == 0) _) _ h in
      let (_, _, h2) = bind-eq-ok (reject_if (id == 0) _) _ h1 in
      let (_, _, h3) = bind-eq-ok (reject_if (is_empty seed) _) _ h2 in
      let (ns, made, h4) =
        bind-eq-ok (make_nonces s.group (derive_nonces s id seed) 0 count) _ h3 in
      (
        record { nonces = []; commitments = [] },
        ap (draw s.group count) (sym (ok_injective h4)) ∙ draw-make_nonces 0 count ns made,
        refl,
      )
