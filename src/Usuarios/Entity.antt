-- ===== src/Usuarios/Entity.antt =====
-- The class `Usuario` of src/usuarios/domain/entities/usuario.entity.ts, as the repository fills it.
use api_padrao.Prelude.{ℕ, String, Text, Bool, Option, List}
use api_padrao.Payload.{EmpresaAuth}

pub record Usuario : Type 0 where
  pub id : ℕ
  pub email : Text
  pub senha : Option String
  pub empresas : List EmpresaAuth
  pub created_at : ℕ
  pub updated_at : ℕ
  pub deleted_at : Option ℕ
  pub ativo : Bool
