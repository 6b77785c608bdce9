-- ===== src/Tests.antt =====
-- Concrete inputs: a prime-order group of seven elements, on which the theorems are applied.
pub mod Toy
pub mod ToyLaws
mod Sessions
mod Keys
mod Dkg
mod Refresh
mod Repair
mod Rerandomized
mod Packages
mod Preprocessed
mod Batches
mod Coordinators
mod Services
mod Signed
mod Trackers
mod Stores
mod Strategies
mod Reputation
