-- ===== src/Signing/Package/Built.antt =====
-- What `Build` returns.
use go_frost.Common.{
  ◌≡◌, ◌≢◌, ◌↔◌, refl, ap, ◌∙◌, [], ◌∷◌, Option, length, subst, arith, length-Permᴰ,
}
use mathlib.Core.List.{Permᴰ}
use go_frost.Encoding.Sorted.{
  Increasing, sorted→Increasing, Increasing-Distinct, Distinct-get_participants, Increasing-Permᴰ,
}
use go_frost.Errors.{ok, bind-eq-ok}
use go_frost.Group.{Group}
use go_frost.Types.{CommitmentList}
use go_frost.Signing.Package.{
  SigningPackage, SigningPackageBuilder, check_sorted, new_signing_package, insertion_sort,
  check_neighbours, build_from, build,
}
use go_frost.Signing.Package.Sorted.{
  insertion_sort-Permᴰ, insertion_sort-IsSorted, neighbours-Increasing, Increasing-neighbours,
  check_sorted-Increasing, Increasing-check_sorted,
}
use go_frost.Bytes.{Bytes}
use mathlib.Core.List.Permᴰ

module _ (g : Group) where
  abbrev package_of : Bytes → CommitmentList g → Option g.Element → SigningPackage g
  package_of message cs pk = record {
    message = message;
    commitment_list = cs;
    group_public_key = pk;
  }

  new-ok :
      (message : Bytes) (cs : CommitmentList g) (pk : Option g.Element) (p : SigningPackage g)
      → new_signing_package g message cs pk ≡ ok p
      → Increasing g cs × (package_of message cs pk ≡ p)
  unfolding new_signing_package
  new-ok message [] pk p h = cc
  new-ok message (c ∷ cs) pk p h =
      let (_, k, e) = bind-eq-ok (check_sorted g c.identifier cs) _ h in
      (check_sorted-Increasing g c cs k, cc e)

  build-ok :
      (message : Bytes) (cs : CommitmentList g) (pk : Option g.Element) (p : SigningPackage g)
      → build_from g message cs pk ≡ ok p
      → Increasing g (insertion_sort g [] cs) × (package_of message (insertion_sort g [] cs) pk ≡ p)
  unfolding build_from
  build-ok message [] pk p h = cc
  build-ok message (c ∷ cs) pk p h =
      let (_, k, e) = bind-eq-ok (check_neighbours g (insertion_sort g [] (c ∷ cs))) _ h in
      (neighbours-Increasing g _ (insertion_sort-IsSorted g [] (c ∷ cs) tt) k, cc e)

  ok-new :
      (message : Bytes) (cs : CommitmentList g) (pk : Option g.Element)
      → cs ≢ []
      → Increasing g cs
      → new_signing_package g message cs pk ≡ ok (package_of message cs pk)
  unfolding new_signing_package
  ok-new message [] pk n h = absurd (n refl)
  ok-new message (c ∷ cs) pk n h = rw (Increasing-check_sorted g c cs h)

  ok-build :
      (message : Bytes) (cs : CommitmentList g) (pk : Option g.Element)
      → cs ≢ []
      → Increasing g (insertion_sort g [] cs)
      → build_from g message cs pk ≡ ok (package_of message (insertion_sort g [] cs) pk)
  unfolding build_from
  ok-build message [] pk n h = absurd (n refl)
  ok-build message (c ∷ cs) pk n h = rw (Increasing-neighbours g (insertion_sort g [] (c ∷ cs)) h)

  ne-nil : (cs ds : CommitmentList g) → Permᴰ cs ds → cs ≢ [] → ds ≢ []
  ne-nil [] ds p n e = n refl
  ne-nil (c ∷ cs) ds p n e =
      let h : length ds ≡ 0 = ap length e in absurd (omega (arith, length-Permᴰ p, h))

  new-nonempty :
      (message : Bytes) (cs : CommitmentList g) (pk : Option g.Element) (p : SigningPackage g)
      → new_signing_package g message cs pk ≡ ok p
      → cs ≢ []
  unfolding new_signing_package
  new-nonempty message [] pk p h = cc
  new-nonempty message (c ∷ cs) pk p h = λ e. cc

  build-nonempty :
      (message : Bytes) (cs : CommitmentList g) (pk : Option g.Element) (p : SigningPackage g)
      → build_from g message cs pk ≡ ok p
      → cs ≢ []
  unfolding build_from
  build-nonempty message [] pk p h = cc
  build-nonempty message (c ∷ cs) pk p h = λ e. cc

  -- `Build` returns a package exactly when the package's list is a permutation of the commitments
  -- that were added, and `NewSigningPackage` returns the package for that list.
  pub build-ok_iff :
      (b : SigningPackageBuilder g) (p : SigningPackage g)
      → (build g b ≡ ok p) ↔ (
          Permᴰ p.commitment_list b.commitments
          × (new_signing_package g b.message p.commitment_list b.group_public_key ≡ ok p))
  unfolding build
  build-ok_iff b p = (built, again)
    where
      sorted : CommitmentList g
      sorted = insertion_sort g [] b.commitments

      perm : Permᴰ sorted b.commitments
      perm = insertion_sort-Permᴰ g [] b.commitments

      built :
          build_from g b.message b.commitments b.group_public_key ≡ ok p
          → Permᴰ p.commitment_list b.commitments
            × (new_signing_package g b.message p.commitment_list b.group_public_key ≡ ok p)
      built h =
          let (i, e) = build-ok b.message b.commitments b.group_public_key p h in
          let n : sorted ≢ [] =
            ne-nil _ _ (Permᴰ.symm perm)
              (build-nonempty b.message b.commitments b.group_public_key p h) in
          subst
            (λ t.
              Permᴰ t.commitment_list b.commitments
              × (new_signing_package g b.message t.commitment_list b.group_public_key ≡ ok t))
            e (perm, ok-new b.message sorted b.group_public_key n i)

      again :
          Permᴰ p.commitment_list b.commitments
            × (new_signing_package g b.message p.commitment_list b.group_public_key ≡ ok p)
          → build_from g b.message b.commitments b.group_public_key ≡ ok p
      again (q, h) =
          let (i, e) = new-ok b.message p.commitment_list b.group_public_key p h in
          let j : Increasing g sorted =
            sorted→Increasing g sorted (insertion_sort-IsSorted g [] b.commitments tt) (
              Distinct-get_participants g (Permᴰ.trans perm (Permᴰ.symm q))
                (Increasing-Distinct g _ i)) in
          let n : b.commitments ≢ [] =
            ne-nil _ _ q (new-nonempty b.message p.commitment_list b.group_public_key p h) in
          ok-build b.message b.commitments b.group_public_key n j
          ∙ ap (λ t. ok (package_of b.message t b.group_public_key))
              (Increasing-Permᴰ g (Permᴰ.trans perm (Permᴰ.symm q)) j i)
          ∙ ap ok e
