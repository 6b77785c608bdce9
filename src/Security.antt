-- ===== src/Security.antt =====
-- Protection around the protocol (pkg/frost/security).
pub mod Reputation
pub mod CommitmentTracker
pub mod NonceTracker
