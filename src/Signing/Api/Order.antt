-- ===== src/Signing/Api/Order.antt =====
-- The order in which the loops over the maps meet the commitments does not matter.
use go_frost.Common.{◌≡◌, List, [], ◌∷◌, map, some, Distinct, refl, Option}
use mathlib.Core.List.{Permᴰ}
use go_frost.Bytes.{Bytes}
use go_frost.Encoding.{get_participants}
use go_frost.Encoding.Sorted.{Increasing-Permᴰ, Distinct-get_participants}
use go_frost.Errors.{ok}
use go_frost.Group.{Group, Suite}
use go_frost.Types.{KeyPackage, SigningNonces, SignatureShare, VerificationShare, CommitmentList}
use go_frost.Signing.Api.{deref_all, sort_commitment_list, sign, aggregate_maps}
use go_frost.Signing.Api.Sorted.{sort_commitment_list-IsIncreasing, sort_commitment_list-Permᴰ}
use mathlib.Core.List.Permᴰ

module _ (g : Group) where
  sort_commitment_list-order :
      (cs ds : CommitmentList g)
      → Permᴰ cs ds
      → Distinct (get_participants g ds)
      → sort_commitment_list g cs ≡ sort_commitment_list g ds
  sort_commitment_list-order cs ds p d =
      Increasing-Permᴰ g
        (Permᴰ.trans (sort_commitment_list-Permᴰ g cs)
          (Permᴰ.trans p (Permᴰ.symm (sort_commitment_list-Permᴰ g ds))))
        (sort_commitment_list-IsIncreasing g cs (Distinct-get_participants g p d))
        (sort_commitment_list-IsIncreasing g ds d)

  deref_all-some : {A : Type 0} (xs : List A) → deref_all g (map some xs) ≡ ok xs
  unfolding deref_all
  deref_all-some [] = refl
  deref_all-some (x ∷ xs) = rw (deref_all-some xs)

module _ (s : Suite) where
  -- `Sign` and `Aggregate` return the same for the commitments of distinct participants in any
  -- order.
  pub sign-order :
      (message : Bytes) (kp : KeyPackage s.group) (nonces : SigningNonces s.group)
      (shares : List (SignatureShare s.group)) (verifying : List (VerificationShare s.group))
      (pk : Option s.Element) (cs ds : CommitmentList s.group)
      → Permᴰ cs ds
      → Distinct (get_participants s.group ds)
      → (sign s message (some kp) (some nonces) (map some cs)
          ≡ sign s message (some kp) (some nonces) (map some ds))
        × (aggregate_maps s message (map some cs) (map some shares) verifying pk
            ≡ aggregate_maps s message (map some ds) (map some shares) verifying pk)
  unfolding sign aggregate_maps
  sign-order message kp nonces shares verifying pk cs ds p d =
      let e = sort_commitment_list-order s.group cs ds p d in
      rw (deref_all-some s.group cs, deref_all-some s.group ds, deref_all-some s.group shares, e)
        (refl, refl)
