-- ===== src/Auditoria.antt =====
-- The audit log of src/shared/infrastructure.
pub mod Interceptor
pub mod Log
pub mod Asked
pub mod Paginas
