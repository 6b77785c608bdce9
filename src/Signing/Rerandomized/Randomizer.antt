-- ===== src/Signing/Rerandomized/Randomizer.antt =====
-- What the randomizer of a session depends on.
use go_frost.Common.{◌≡◌, refl, sym, ap, ◌∙◌, some, Option, [], ◌∷◌, ◌++◌, none}
use mathlib.Core.List.{append_assoc}
use go_frost.Bytes.{Bytes}
use go_frost.Errors.{Result, ok, ◌>>=◌, fail, panic, deref}
use go_frost.Group.{Suite}
use go_frost.Types.{Identifier, SigningCommitments, CommitmentList}
use go_frost.Types.Identifiers.{serialize}
use go_frost.Signing.Rerandomized.{compute_randomizer, randomizer_loop, new_randomized_params}

module _ (s : Suite) where
  -- The commitments of a participant.
  abbrev pub entry_of : Identifier → s.Element → s.Element → SigningCommitments s.group
  entry_of id hiding binding = record {
    identifier = id;
    hiding_nonce_commitment = some hiding;
    binding_nonce_commitment = some binding;
  }

  -- What they add to the input of the hash.
  abbrev pub entry_bytes : Identifier → s.Element → s.Element → Bytes
  entry_bytes id hiding binding =
      serialize id ++ (s.element_bytes hiding ++ s.element_bytes binding)

  bind_assoc-ok :
      {A : Type 0} (a : Result Bytes) (u : Bytes) (f : Bytes → Result A)
      → (a >>= (λ x. f (x ++ u))) ≡ ((a >>= (λ x. ok (x ++ u))) >>= f)
  bind_assoc-ok (ok a) u f = refl
  bind_assoc-ok (fail e) u f = refl
  bind_assoc-ok panic u f = refl

  hashed :
      {A : Type 0} (a b : Result Bytes) (u v : Bytes) (f : Bytes → Result A)
      → (a >>= (λ x. ok (x ++ u))) ≡ (b >>= (λ x. ok (x ++ v)))
      → (a >>= (λ x. f (x ++ u))) ≡ (b >>= (λ x. f (x ++ v)))
  hashed a b u v f e = bind_assoc-ok a u f ∙ ap (λ t. t >>= f) e ∙ sym (bind_assoc-ok b v f)

  both_read :
      (h b : Option s.Element) (f g : s.Element → s.Element → Result Bytes) (u v : Bytes)
      → ((x y : s.Element) → (f x y >>= (λ t. ok (t ++ u))) ≡ (g x y >>= (λ t. ok (t ++ v))))
      → ((deref h >>= (λ x. deref b >>= f x)) >>= (λ t. ok (t ++ u)))
        ≡ ((deref h >>= (λ x. deref b >>= g x)) >>= (λ t. ok (t ++ v)))
  both_read none b f g u v e = refl
  both_read (some x) none f g u v e = refl
  both_read (some x) (some y) f g u v e = e x y

  randomizer_loop-snoc :
      (input msg : Bytes) (cs : CommitmentList s.group) (id : Identifier)
      (hiding binding : s.Element)
      → (randomizer_loop s.group input (cs ++ (entry_of id hiding binding ∷ []))
          >>= (λ b. ok (b ++ msg)))
        ≡ (randomizer_loop s.group input cs
            >>= (λ b. ok (b ++ (entry_bytes id hiding binding ++ msg))))
  unfolding randomizer_loop
  randomizer_loop-snoc input msg [] id hiding binding = ap ok (
      rw (
        append_assoc input (serialize id) (s.element_bytes hiding),
        append_assoc input (serialize id ++ s.element_bytes hiding) (s.element_bytes binding),
        append_assoc (serialize id) (s.element_bytes hiding) (s.element_bytes binding),
        append_assoc input (entry_bytes id hiding binding) msg,
      ))
  randomizer_loop-snoc input msg (c ∷ cs) id hiding binding =
      both_read c.hiding_nonce_commitment c.binding_nonce_commitment _ _ msg
        (entry_bytes id hiding binding ++ msg)
        (λ h b.
          randomizer_loop-snoc
            (((input ++ serialize c.identifier) ++ s.element_bytes h) ++ s.element_bytes b) msg cs
            id hiding binding)

  -- The hash's input does not say where the commitments end: when the last entry of the commitment
  -- list, with both of its commitments, is left out and its encoding is put at the start of the message
  -- instead, `ComputeRandomizer` returns the same, parameters or error.
  pub compute_randomizer-moved :
      (msg : Bytes) (cs : CommitmentList s.group) (id : Identifier) (hiding binding : s.Element)
      (randomness : s.Scalar) (group_public_key : Option s.Element)
      → compute_randomizer s msg
          (cs ++ (entry_of id hiding binding ∷ []))
          randomness
          group_public_key
        ≡ compute_randomizer s (entry_bytes id hiding binding ++ msg) cs randomness group_public_key
  unfolding compute_randomizer
  compute_randomizer-moved msg cs id hiding binding randomness none = refl
  compute_randomizer-moved msg cs id hiding binding randomness (some key) =
      hashed _ _ msg _ (λ t. new_randomized_params s (some (s.h3 t)) (some key))
        (randomizer_loop-snoc (s.bytes randomness) msg cs id hiding binding)
