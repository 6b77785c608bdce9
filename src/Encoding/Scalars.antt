-- ===== src/Encoding/Scalars.antt =====
-- `IdentifierToScalar` gives distinct scalars to distinct identifiers.
use go_frost.Common.{◌-◌, ◌^◌, ◌<◌, ◌≡◌, sym, ap, ◌∙◌, List, [], ◌∷◌, All, ◌≢◌, Distinct, map}
use go_frost.Bytes.Inverse.{layout, identifier_bytes-layout, one_bytes-layout, layout_injective}
use go_frost.Errors.{ok, ◌>>=◌}
use go_frost.Group.{Group, IsPrimeOrder}
use go_frost.Types.{Identifier}
use go_frost.Encoding.{identifier_to_scalar}

module _ (g : Group) (l : IsPrimeOrder g) where
  identifier_to_scalar-layout :
      (id : Identifier)
      → identifier_to_scalar g id
        ≡ g.deserialize_scalar (layout g.byte_order (g.scalar_length - 4) id)
  unfolding identifier_to_scalar
  identifier_to_scalar-layout id =
      rw (identifier_bytes-layout g.byte_order g.scalar_length id l.length_bound)

  -- The identifier 1 is the scalar one.
  pub identifier_to_scalar-one : identifier_to_scalar g 1 ≡ ok l.one
  identifier_to_scalar-one =
      identifier_to_scalar-layout 1
      ∙ sym (
          ap (λ m. m >>= g.deserialize_scalar)
            (one_bytes-layout g.byte_order g.scalar_length l.length_bound))
      ∙ l.deserialize_one

  -- Two 32-bit identifiers with the same scalar are equal.
  pub identifier_to_scalar_injective :
      (a b : Identifier) {s : g.Scalar}
      → a < 2 ^ 32
      → b < 2 ^ 32
      → identifier_to_scalar g a ≡ ok s
      → identifier_to_scalar g b ≡ ok s
      → a ≡ b
  identifier_to_scalar_injective a b {s} ha hb p q =
      layout_injective g.byte_order (g.scalar_length - 4) a b ha hb (
        sym (l.deserialize_canonical _ s (sym (identifier_to_scalar-layout a) ∙ p))
        ∙ l.deserialize_canonical _ s (sym (identifier_to_scalar-layout b) ∙ q))

  module _ {A : Type 0} (identifier : A → Identifier) (x : A → g.Scalar) where
    -- The entry's identifier fits in 32 bits and has the entry's scalar.
    abbrev pub HasScalar : A → Type 0
    HasScalar a = (identifier a < 2 ^ 32) × (identifier_to_scalar g (identifier a) ≡ ok (x a))

    fresh :
        (a : A) (bs : List A)
        → HasScalar a
        → All HasScalar bs
        → All (λ i. identifier a ≢ i) (map identifier bs)
        → All (λ s. x a ≢ s) (map x bs)
    fresh a [] h hs n = tt
    fresh a (b ∷ bs) h hs n = (
      (λ e. n.0 (
          identifier_to_scalar_injective (identifier a) (identifier b) h.0 hs.0.0 h.1
            (hs.0.1 ∙ ap ok (sym e)))),
      fresh a bs h hs.1 n.1,
    )

    -- Distinct identifiers have distinct scalars.
    pub HasScalar-Distinct :
        (bs : List A) → All HasScalar bs → Distinct (map identifier bs) → Distinct (map x bs)
    HasScalar-Distinct [] hs d = tt
    HasScalar-Distinct (b ∷ bs) hs d = (fresh b bs hs.0 hs.1 d.0, HasScalar-Distinct bs hs.1 d.1)
