-- ===== src/Keygen/Repair/Deltas.antt =====
-- The deltas of `RepairShareStep1` sum to the helper's weighted share.
use go_frost.Common.{
  ℕ, ◌+◌, ◌≡◌, ◌≢◌, sym, ap, ap₂, ◌∙◌, none, some, Option, List, [], ◌∷◌, All, Distinct, look_up,
  insert, look_up-insert, look_up-insert_other,
}
use go_frost.Algebra.{Field, ◌⊖◌, ◌⊕◌, add_left_cancel, add-sub_cancel}
use go_frost.Algebra.Sums.{sum}
use go_frost.Errors.{Result, ok, bind-eq-ok, wrap}
use go_frost.Group.{Group, IsPrimeOrder}
use go_frost.Group.Scalars.{scalars}
use go_frost.Types.{Identifier}
use go_frost.Keygen.Repair.{delta_loop}

module _ (g : Group) where
  -- A scalar read from a map, zero where there is none.
  abbrev pub or_zero : Option g.Scalar → g.Scalar
  or_zero none = g.new_scalar
  or_zero (some s) = s

  -- The delta for a helper.
  abbrev pub delta : List (Identifier × g.Scalar) → Identifier → g.Scalar
  delta deltas id = or_zero (look_up id deltas)

module _ (g : Group) (l : IsPrimeOrder g) where
  instance abbrev field : Field g.Scalar
  field = scalars g l

  delta_loop-frame :
      (rng : ℕ → Result g.Scalar) (con : g.Scalar) (i : ℕ) (deltas : List (Identifier × g.Scalar))
      (s : g.Scalar) (ids : List Identifier) (m : List (Identifier × g.Scalar)) (other : Identifier)
      → delta_loop g rng con i deltas s ids ≡ ok m
      → All (λ id. other ≢ id) ids
      → look_up other m ≡ look_up other deltas
  unfolding delta_loop
  delta_loop-frame rng con i deltas s [] m other h n = cc
  delta_loop-frame rng con i deltas s (id ∷ []) m other h n =
      ap (look_up other) (cc h)
      ∙ look_up-insert_other id other (g.sub con s) deltas (λ e. n.0 (sym e))
  delta_loop-frame rng con i deltas s (id ∷ next ∷ ids) m other h n =
      let (d, _, t) = bind-eq-ok (wrap _ (rng i)) _ h in
      delta_loop-frame rng con (i + 1) (insert id d deltas) (g.add s d) (next ∷ ids) m other t n.1
      ∙ look_up-insert_other id other d deltas (λ e. n.0 (sym e))

  rest_after : (d c s : g.Scalar) → d ⊕ (c ⊖ (s ⊕ d)) ≡ c ⊖ s
  rest_after d c s =
      add_left_cancel s _ _
        (sym (field.add_assoc s d _) ∙ add-sub_cancel (s ⊕ d) c ∙ sym (add-sub_cancel s c))

  pub delta_loop-sum :
      (rng : ℕ → Result g.Scalar) (con : g.Scalar) (i : ℕ) (deltas : List (Identifier × g.Scalar))
      (s : g.Scalar) (ids : List Identifier) (m : List (Identifier × g.Scalar))
      → delta_loop g rng con i deltas s ids ≡ ok m
      → Distinct ids
      → sum ⦃f = scalars g l⦄ ids (delta g m) ≡ g.add con (l.neg s)
  unfolding delta_loop
  delta_loop-sum rng con i deltas s [] m h u = cc
  delta_loop-sum rng con i deltas s (id ∷ []) m h u =
      field.add-zero _
      ∙ ap (λ t. delta g t id) (sym (cc h))
      ∙ ap (or_zero g) (look_up-insert id (g.sub con s) deltas)
      ∙ l.sub_lem con s
  delta_loop-sum rng con i deltas s (id ∷ next ∷ ids) m h u =
      let (d, _, t) = bind-eq-ok (wrap _ (rng i)) _ h in
      ap₂ g.add
        (ap (or_zero g) (
          delta_loop-frame rng con (i + 1) (insert id d deltas) (g.add s d) (next ∷ ids) m id t u.0
          ∙ look_up-insert id d deltas))
        (delta_loop-sum rng con (i + 1) (insert id d deltas) (g.add s d) (next ∷ ids) m t u.1)
      ∙ rest_after d con s
