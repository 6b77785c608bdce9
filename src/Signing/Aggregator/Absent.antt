-- ===== src/Signing/Aggregator/Absent.antt =====
-- A nonce commitment that is nil, in the second round and in the aggregation.
use go_frost.Common.{ℕ, ◌≤◌, ◌≡◌, some, List, [], ◌∷◌, All, length, le→ltb-false}
use go_frost.Bytes.{Bytes}
use go_frost.Encoding.{validate_commitment_list}
use go_frost.Encoding.Total.{IsPresent, encode-panic_iff}
use go_frost.Errors.{ok, panic}
use go_frost.Group.{Suite, IsPrimeOrder}
use go_frost.Types.{KeyPackage, SigningNonces, SignatureShare, CommitmentList}
use go_frost.Signing.Aggregator.{aggregate, commit_group}
use go_frost.Signing.Binding.{compute_binding_factors}
use go_frost.Signing.Honest.Sign.{enough}
use go_frost.Signing.Participant.{round_two}

module _ (s : Suite) (l : IsPrimeOrder s.group) where
  compute_binding_factors-panic :
      (key : s.Element) (cs : CommitmentList s.group) (msg : Bytes)
      → validate_commitment_list s.group cs ≡ ok tt
      → ¬ All (IsPresent s.group l) cs
      → compute_binding_factors s (some key) cs msg ≡ panic
  unfolding compute_binding_factors validate_commitment_list
  compute_binding_factors-panic key [] msg v n = absurd (n tt)
  compute_binding_factors-panic key (c ∷ cs) msg v n =
      rw ((encode-panic_iff s.group l (c ∷ cs)).1 n)

  -- A commitment list passes the validation and has a nil nonce commitment. With a group public key
  -- and enough entries `RoundTwo` panics, and with a group public key and enough shares `Aggregate`
  -- panics: neither returns an error.
  pub round_two-aggregate-panic :
      (kp : KeyPackage s.group) (nonces : SigningNonces s.group) (key : s.Element) (msg : Bytes)
      (cs : CommitmentList s.group) (mn : ℕ) (shares : List (SignatureShare s.group))
      → kp.group_public_key ≡ some key
      → validate_commitment_list s.group cs ≡ ok tt
      → ¬ All (IsPresent s.group l) cs
      → kp.min_signers ≤ length cs
      → mn ≤ length shares
      → (round_two s kp nonces msg cs ≡ panic) × (aggregate s mn (some key) cs msg shares ≡ panic)
  unfolding round_two aggregate commit_group
  round_two-aggregate-panic kp nonces key msg cs mn shares hk v n h k =
      let p = compute_binding_factors-panic key cs msg v n in
      (
        rw (v, enough kp.min_signers (length cs) h, hk, p),
        rw (v, le→ltb-false (length shares) mn k, p),
      )
