-- ===== src/Polynomial.antt =====
-- pkg/frost/helpers/polynomial.go. Random draws are an argument: `rng i` is the result of the
-- `i`-th call of `RandomScalar`.
pub mod Value
pub mod Lagrange
use go_frost.Common.{
  ℕ, zero, suc, ◌+◌, Bool, true, false, ◌||◌, Option, List, [], ◌∷◌, reverse, if◌then◌else◌,
}
use go_frost.Bytes.{one_bytes}
use go_frost.Errors.{
  Result, Error, ok, fail, panic, parameter_error, sentinel, Sentinel, ◌>>=◌, ◌>>◌, wrap, require,
  reject_if, must, accept_if,
}
use go_frost.Group.{Group}
use go_frost.Types.{Polynomial}

module _ (g : Group) where
  -- `scalarOne` drops the decoding error; the nil scalar that is left panics where it is used.
  unfoldable pub scalar_one : Result g.Scalar
  scalar_one = must (one_bytes g.byte_order g.scalar_length >>= g.deserialize_scalar)

  -- `for i := len - 2; i >= 0; i--`, over the coefficients that are left, the highest first.
  horner_loop : g.Scalar → List g.Scalar → g.Scalar → g.Scalar
  horner_loop result [] x = result
  horner_loop result (c ∷ cs) x = horner_loop (g.add (g.mul result x) c) cs x

  from_highest : List g.Scalar → g.Scalar → g.Scalar
  from_highest [] x = g.new_scalar
  from_highest (c ∷ cs) x = horner_loop c cs x

  -- `Evaluate`.
  unfoldable pub evaluate : Polynomial g → g.Scalar → g.Scalar
  unfolding from_highest horner_loop
  evaluate poly x = from_highest (reverse poly) x

  -- The search for `xi`.
  found : g.Scalar → List g.Scalar → Bool
  found xi [] = false
  found xi (x ∷ xs) = g.equal x xi || found xi xs

  -- The inner loop of the search for duplicates.
  repeated : g.Scalar → List g.Scalar → Bool
  repeated x [] = false
  repeated x (y ∷ ys) = g.equal x y || repeated x ys

  has_duplicate : List g.Scalar → Bool
  has_duplicate [] = false
  has_duplicate (x ∷ xs) = repeated x xs || has_duplicate xs

  -- The loop over the coordinates, with the numerator and the denominator.
  lagrange_loop : List g.Scalar → g.Scalar → g.Scalar → g.Scalar → g.Scalar × g.Scalar
  lagrange_loop [] xi n d = (n, d)
  lagrange_loop (xj ∷ xs) xi n d = elim (g.equal xj xi) [
    | true ↦ lagrange_loop xs xi n d
    | false ↦ lagrange_loop xs xi (g.mul n xj) (g.mul d (g.sub xj xi))
  ]

  interpolate : List g.Scalar → g.Scalar → Result g.Scalar
  interpolate (x ∷ []) xi = scalar_one
  interpolate xs xi = do
    one ← scalar_one
    let quotient = lagrange_loop xs xi one one
    denominator_inv ←
        wrap (parameter_error "denominator" "cannot invert (division by zero)") (g.inv quotient.1)
    ok (g.mul quotient.0 denominator_inv)

  -- `DeriveInterpolatingValue`.
  unfoldable pub derive_interpolating_value : List g.Scalar → Option g.Scalar → Result g.Scalar
  unfolding scalar_one found repeated has_duplicate lagrange_loop interpolate
  derive_interpolating_value [] _ =
      fail (parameter_error "xCoords" "cannot be empty" (sentinel Sentinel.invalid_parameters))
  derive_interpolating_value (x ∷ xs) point = do
    xi ← require point (parameter_error "xi" "cannot be nil" (sentinel Sentinel.invalid_parameters))
    accept_if (found xi (x ∷ xs))
        (parameter_error "xi" "not found in x-coordinates" (sentinel Sentinel.invalid_parameters))
    reject_if (has_duplicate (x ∷ xs)) (
        parameter_error "xCoords" "contains duplicate coordinates"
          (sentinel Sentinel.invalid_parameters))
    interpolate (x ∷ xs) xi

  -- `RandomScalar` called `n` times, from the `i`-th call on; each caller reports a failure its way.
  unfoldable pub random_scalars :
      (Error → Error) → (ℕ → Result g.Scalar) → ℕ → ℕ → Result (List g.Scalar)
  random_scalars report rng i zero = ok []
  random_scalars report rng i (suc n) = do
    s ← wrap report (rng i)
    rest ← random_scalars report rng (i + 1) n
    ok (s ∷ rest)

  -- `Generate`, with the draws from the `i`-th on.
  unfoldable pub generate : (ℕ → Result g.Scalar) → ℕ → Option g.Scalar → ℕ → Result (Polynomial g)
  generate rng i constant_term degree = do
    c ←
        require constant_term
          (parameter_error "constantTerm" "cannot be nil" (sentinel Sentinel.invalid_parameters))
    coefficients ←
        random_scalars (parameter_error "coefficients" "failed to generate random scalar") rng i
          degree
    ok (c ∷ coefficients)
