-- ===== src/Permissoes.antt =====
-- Permissions: src/permissoes/.
pub mod Repository
pub mod Service
pub mod Consistent
pub mod Invariant
pub mod Lookup
