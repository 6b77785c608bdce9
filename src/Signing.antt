-- ===== src/Signing.antt =====
-- The two signing rounds, aggregation and verification (pkg/frost/helpers and pkg/frost/signing).
pub mod Binding
pub mod GroupCommitment
pub mod Challenge
pub mod Participant
pub mod Aggregator
pub mod Api
pub mod Package
pub mod Honest
pub mod Coordinator
pub mod Rerandomized
pub mod Batch
pub mod Strategy
pub mod Preprocess
