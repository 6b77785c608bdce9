-- ===== src/Storage.antt =====
-- Storage backends (pkg/storage).
pub mod Memory
