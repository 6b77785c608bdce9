-- ===== src/Lib.antt =====
-- go-frost: FROST threshold Schnorr signatures (RFC 9591) over an abstract prime-order group.
--
-- The program's parts, and the files that model them:
--   * Group: the interfaces Group, Scalar and Element (pkg/frost/group/interface.go) and Ciphersuite
--     (pkg/frost/ciphersuite/interface.go) as records, and what they document as the record
--     IsPrimeOrder. The curves and hash functions behind them are third-party code, so a suite and
--     its laws are parameters of every other module.
--   * Errors: the error values (pkg/frost/errors.go), and Result, which has a value, an error or a
--     panic. A call whose error is dropped panics where the nil value that is left is used.
--   * Types: the protocol's data (pkg/frost/types.go, pkg/frost/identifier.go). An interface field
--     that the code compares with nil is an option, and every other one is present.
--   * Bytes, Encoding, Polynomial, Commitments, Signing/Binding, Signing/GroupCommitment and
--     Signing/Challenge: pkg/frost/helpers, a function for each method.
--   * Keygen: pkg/frost/keygen, with the verifiable secret sharing in Vss, the trusted dealer in
--     Dealer, reconstruction in Reconstruct, the distributed key generation (Part1, Part2, Part3) in
--     Dkg and Dkg/Rounds, and the refreshing of shares in Refresh.
--   * Signing: pkg/frost/signing, with RoundOne, RoundTwo and VerifySignatureShare in Participant,
--     Aggregate, AggregateWithVerification and Verify in Aggregator, and the interface over maps
--     with its sort in Api. Signing/Aggregator/Absent is about commitments that are nil.
--     Signing/Honest is a session in which all follow the protocol, Checked and
--     Aborts below it are about the verification of shares, and Keygen/Dkg/Honest is the same for key
--     generation.
--   * Keygen/Repair: the repair of a lost share (pkg/frost/keygen/repairable/repairable.go).
--   * Signing/Package: signing packages and their builder (pkg/frost/signing/package.go).
--   * Signing/Coordinator: RequestCommitments, RequestSignatureShares and Sign
--     (pkg/frost/signing/coordinator.go), as actions on the nonces that are kept and the reputation
--     tracker. Errors/Actions has the actions.
--   * Signing/Rerandomized: signing under a key that a randomizer moves
--     (pkg/frost/signing/rerandomized.go).
--   * Signing/Batch: the verification of several signatures at once (pkg/frost/signing/batch.go).
--   * Signing/Strategy: the strategies against invalid shares (pkg/frost/signing/strategy.go).
--   * Signing/Preprocess: nonces made before the message is known (pkg/frost/signing/preprocess.go).
--   * Security/Reputation: the in-memory reputation tracker (pkg/frost/security/reputation.go), a
--     function on the tracker's state for each method.
--   * Security/CommitmentTracker and Security/NonceTracker: the trackers of used commitments
--     (pkg/frost/security/commitment_tracker.go and frost_nonce_tracker.go).
--   * Service/Frost: the service over the dealer, the rounds and the aggregator
--     (pkg/frost/service/frost.go).
--   * Service/Session: the signing session (pkg/frost/service/session_manager.go), with its reachable
--     states in Steps.
--   * Storage/Memory: the store in memory (pkg/storage/memory.go), with the partial function that it
--     implements in View.
--   * Algebra: fields, sums, polynomials and Lagrange interpolation, for the proofs.
--   * Tests: a group of seven elements with a suite, and the theorems applied in it.
--
-- A signing session calls the parts in this order: the dealer or the distributed key generation
-- makes key packages; RoundOne makes nonces and commitments; RoundTwo validates the commitment list,
-- computes binding factors, group commitment, Lagrange weight and challenge, and returns a share;
-- Aggregate sums the shares, and Verify checks the Schnorr equation. Shares, commitments and
-- verification all evaluate the same polynomial, in the scalars or in the exponent.
--
-- Conventions: an identifier is a natural number, below 2 ^ 32 where that matters; random draws and
-- readings of the clock are arguments; a Go map is the list of its entries in the order in which a
-- loop meets them, which Go leaves open, so theorems hold for every order; the loops of the last
-- round of key generation, which walk the same map more than once, take the order of each walk as an
-- argument; Copy, the zeroing of buffers and KeepAlive have no effect on values, which are immutable
-- here. Every loop is a recursion on the list that it walks, or on a count: the exchange sort is given
-- the list's length, which is the number of positions that it fills.
--
-- Not modelled: the implementations of groups and ciphersuites (third-party cryptography), Zeroize
-- methods, message strings of errors, the coordinator's authentication, validators and
-- authentication, key storage, the session manager, storage in files, serialization, the command
-- line and the C library.
pub mod Common
pub mod Errors
pub mod Bytes
pub mod Group
pub mod Types
pub mod Encoding
pub mod Algebra
pub mod Polynomial
pub mod Commitments
pub mod Keygen
pub mod Signing
pub mod Security
pub mod Service
pub mod Storage
pub mod Tests
