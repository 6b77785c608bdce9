-- ===== src/Service.antt =====
-- The service layer (pkg/frost/service).
pub mod Session
pub mod Frost
