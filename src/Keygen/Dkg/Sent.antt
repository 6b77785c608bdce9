-- ===== src/Keygen/Dkg/Sent.antt =====
-- What `Part2` sends when every participant follows the protocol.
use go_frost.Common.{
  ℕ, ◌^◌, ◌<◌, ◌≡◌, refl, ◌∙◌, ◌==◌, ==_refl, Option, some, List, [], ◌∷◌, map, length, length-map,
  All, true,
}
use go_frost.Errors.{ok}
use go_frost.Group.{Suite}
use go_frost.Types.{Identifier}
use go_frost.Keygen.Dkg.{Round1SecretPackage, Round2Package, verify_proof_of_knowledge}
use go_frost.Keygen.Dkg.Rounds.{verify_proofs, peer_shares, part2}
use go_frost.Keygen.Dkg.Honest.{Peer, IsPeer, commitment_of, round1_of, round2_of, secret_of}
use go_frost.Keygen.Dkg.Keys.{expected_count-others}

module _ (s : Suite) where
  -- What the participant keeps after round 1.
  abbrev pub start_of : ℕ → ℕ → Peer s → Round1SecretPackage s.group
  start_of mn mx me = record {
    identifier = me.identifier;
    coefficients = me.poly;
    commitment = commitment_of s me;
    min_signers = mn;
    max_signers = mx;
  }

  -- What `me` sends to the participant `p`: the value that `p` takes from `me` in round 3.
  abbrev pub sent_to : Peer s → Peer s → Identifier × Option (Round2Package s.group)
  sent_to me p = (p.identifier, (round2_of s p me).1)

  -- The proof in the participant's package is accepted.
  abbrev pub IsProven : Peer s → Type 0
  IsProven p = verify_proof_of_knowledge s p.identifier (round1_of s p).1 ≡ ok tt

  verify_proofs-accepted :
      (n : ℕ) (ps : List (Peer s))
      → All (IsPeer s n) ps
      → All IsProven ps
      → verify_proofs s n (map (round1_of s) ps) ≡ ok tt
  unfolding verify_proofs
  verify_proofs-accepted n [] h k = refl
  verify_proofs-accepted n (p ∷ ps) h k =
      let e : (length (map s.scalar_base_mult p.poly) == n) ≡ true =
        rw (length-map s.scalar_base_mult p.poly ∙ h.0.coefficients) (==_refl n) in
      rw (e, k.0) (verify_proofs-accepted n ps h.1 k.1)

  peer_shares-sent :
      (n mn mx : ℕ) (me : Peer s) (ps : List (Peer s))
      → All (IsPeer s n) ps
      → peer_shares s (start_of mn mx me) (map (round1_of s) ps) ≡ ok (map (sent_to me) ps)
  unfolding peer_shares
  peer_shares-sent n mn mx me [] h = refl
  peer_shares-sent n mn mx me (p ∷ ps) h = rw (h.0.has_scalar, peer_shares-sent n mn mx me ps h.1)

  -- The participants' identifiers have scalars, their polynomials have `minSigners` coefficients, and
  -- the proofs of the others are accepted. Then `Part2` succeeds, keeps the participant's own value
  -- and sends to each other participant the value of its polynomial there, which is what `Part3`
  -- expects of it.
  pub part2-sent :
      (n mx : ℕ) (me : Peer s) (ps : List (Peer s))
      → All (IsPeer s n) (me ∷ ps)
      → All IsProven ps
      → length (me ∷ ps) ≡ mx
      → mx < 2 ^ 32
      → part2 s (some (start_of n mx me)) (map (round1_of s) ps)
        ≡ ok (secret_of s n mx me, map (sent_to me) ps)
  unfolding part2
  part2-sent n mx me ps h k e b = rw (
    length-map (round1_of s) ps,
    expected_count-others mx (length ps) e b,
    verify_proofs-accepted n ps h.1 k,
    h.0.has_scalar,
    peer_shares-sent n n mx me ps h.1,
  )
