-- ===== src/Keygen.antt =====
-- Key generation (pkg/frost/keygen).
pub mod Vss
pub mod Dealer
pub mod Reconstruct
pub mod Dkg
pub mod Refresh
pub mod Repair
