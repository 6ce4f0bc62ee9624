-- ===== src/Empresas.antt =====
-- Companies and who belongs to them: src/empresas/.
pub mod Repository
pub mod Memberships
pub mod Service
pub mod Table
pub mod Lookup
pub mod AddUser
pub mod Unique
