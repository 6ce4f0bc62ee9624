-- ===== src/Usuarios.antt =====
-- The users: src/usuarios.
pub mod Entity
pub mod Repository
pub mod Authorization
pub mod Transaction
pub mod Service
pub mod Listing
