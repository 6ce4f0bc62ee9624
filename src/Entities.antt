-- ===== src/Entities.antt =====
-- The domain entities with their factories and transitions, which no service calls yet: the classes
-- of src/permissoes, src/perfis, src/empresas and src/usuarios under domain/entities.
-- `toUpperCase` and `toLowerCase` are arguments.
pub mod Trim
pub mod Base
pub mod Permissao
pub mod Perfil
pub mod Empresa
pub mod Usuario
