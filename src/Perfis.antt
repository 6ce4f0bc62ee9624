-- ===== src/Perfis.antt =====
-- Profiles: src/perfis/.
pub mod Repository
pub mod Writes
pub mod Service
pub mod Isolation
pub mod Invalidation
