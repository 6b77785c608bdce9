-- ===== src/Signing/Package.antt =====
-- pkg/frost/signing/package.go: the message and the commitments of the second round, and their
-- builder. A package's public key may be nil.
pub mod Sorted
pub mod Built
use go_frost.Common.{
  ℕ, leb, ltb, ◌==◌, if◌then◌else◌, Bool, true, false, Option, none, some, List, [], ◌∷◌, ◌++◌,
  reverse, length,
}
use go_frost.Bytes.{Bytes}
use go_frost.Encoding.{get_participants}
use go_frost.Errors.{Result, ok, fail, sentinel, Sentinel, ◌>>=◌, ◌>>◌}
use go_frost.Group.{Group}
use go_frost.Types.{Identifier, SigningCommitments, CommitmentList}

pub record SigningPackage (g : Group) : Type 0 where
  pub message : Bytes
  pub commitment_list : CommitmentList g
  pub group_public_key : Option g.Element

pub record SigningPackageBuilder (g : Group) : Type 0 where
  pub message : Bytes
  pub commitments : CommitmentList g
  pub group_public_key : Option g.Element

module _ (g : Group) where
  -- The loop from index 1, with the identifier at the index before.
  unfoldable pub check_sorted : Identifier → CommitmentList g → Result (Unit {0})
  check_sorted prev [] = ok tt
  check_sorted prev (c ∷ cs) =
      let rest = check_sorted c.identifier cs in
      if leb c.identifier prev then fail (sentinel Sentinel.unsorted_commitments) else rest

  -- `NewSigningPackage`.
  unfoldable pub new_signing_package :
      Bytes → CommitmentList g → Option g.Element → Result (SigningPackage g)
  new_signing_package message [] pk = fail (sentinel Sentinel.empty_commitment_list)
  new_signing_package message (c ∷ cs) pk = do
    check_sorted c.identifier cs
    ok (record { message = message; commitment_list = c ∷ cs; group_public_key = pk })

  -- `GetCommitment`, over the list.
  unfoldable pub commitment_of : Identifier → CommitmentList g → Option (SigningCommitments g)
  commitment_of id [] = none
  commitment_of id (c ∷ cs) = if c.identifier == id then some c else commitment_of id cs

  -- `GetCommitment`.
  unfoldable pub get_commitment : SigningPackage g → Identifier → Option (SigningCommitments g)
  get_commitment p id = commitment_of id p.commitment_list

  -- `GetParticipants`.
  unfoldable pub package_participants : SigningPackage g → List Identifier
  package_participants p = get_participants g p.commitment_list

  abbrev is_some : Option (SigningCommitments g) → Bool
  is_some none = false
  is_some (some _) = true

  -- `ContainsParticipant`.
  unfoldable pub contains_participant : SigningPackage g → Identifier → Bool
  contains_participant p id = is_some (get_commitment p id)

  -- `Len`.
  unfoldable pub package_length : SigningPackage g → ℕ
  package_length p = length p.commitment_list

  -- `NewSigningPackageBuilder`.
  unfoldable pub new_builder : SigningPackageBuilder g
  new_builder = record { message = []; commitments = []; group_public_key = none }

  unfoldable pub with_message : Bytes → SigningPackageBuilder g → SigningPackageBuilder g
  with_message message b = record b { message = message }

  unfoldable pub with_group_public_key :
      Option g.Element → SigningPackageBuilder g → SigningPackageBuilder g
  with_group_public_key key b = record b { group_public_key = key }

  unfoldable pub add_commitment :
      SigningCommitments g → SigningPackageBuilder g → SigningPackageBuilder g
  add_commitment c b = record b { commitments = b.commitments ++ (c ∷ []) }

  unfoldable pub add_commitments :
      CommitmentList g → SigningPackageBuilder g → SigningPackageBuilder g
  add_commitments cs b = record b { commitments = b.commitments ++ cs }

  -- The inner loop of the insertion sort, over the entries before `key`, the last first: those with
  -- a greater identifier move up by one, and `key` stands before them.
  unfoldable pub shift : SigningCommitments g → CommitmentList g → CommitmentList g
  shift key [] = key ∷ []
  shift key (c ∷ before) =
      if ltb key.identifier c.identifier then c ∷ shift key before else key ∷ c ∷ before

  -- The outer loop; `before` are the entries that are sorted, the last first.
  unfoldable pub insertion_sort : CommitmentList g → CommitmentList g → CommitmentList g
  insertion_sort before [] = reverse before
  insertion_sort before (key ∷ rest) = insertion_sort (shift key before) rest

  -- The loop that compares neighbours.
  unfoldable pub check_neighbours : CommitmentList g → Result (Unit {0})
  check_neighbours [] = ok tt
  check_neighbours (c ∷ []) = ok tt
  check_neighbours (c ∷ d ∷ cs) =
      let rest = check_neighbours (d ∷ cs) in
      if d.identifier == c.identifier then fail (sentinel Sentinel.duplicate_participant) else rest

  -- `Build`, for the commitments that were added.
  unfoldable pub build_from :
      Bytes → CommitmentList g → Option g.Element → Result (SigningPackage g)
  build_from message [] pk = fail (sentinel Sentinel.empty_commitment_list)
  build_from message (c ∷ cs) pk = do
    check_neighbours (insertion_sort [] (c ∷ cs))
    ok (record {
      message = message;
      commitment_list = insertion_sort [] (c ∷ cs);
      group_public_key = pk;
    })

  -- `Build`.
  unfoldable pub build : SigningPackageBuilder g → Result (SigningPackage g)
  build b = build_from b.message b.commitments b.group_public_key
