-- ===== src/Database.antt =====
-- The tables of prisma/schema.prisma that the modelled services read and write, and the Prisma
-- calls on them. A column that no modelled code reads is left out.
use api_padrao.Prelude.{ℕ, String, Text, Bool, Option, List}
use api_padrao.Payload.{PerfilCompleto}

pub record UsuarioRow : Type 0 where
  pub id : ℕ
  pub email : Text
  pub senha : Option String
  pub created_at : ℕ
  pub updated_at : ℕ
  pub deleted_at : Option ℕ
  pub ativo : Bool

-- the pivot table UsuarioEmpresa, with the profiles that are joined to it
pub record Vinculo : Type 0 where
  pub usuario_id : ℕ
  pub empresa_id : String
  pub perfis : List PerfilCompleto

pub record RefreshToken : Type 0 where
  pub id : String
  pub token_hash : String
  pub user_id : ℕ
  pub expires_at : ℕ
  pub revoked_at : Option ℕ

pub record PasswordResetToken : Type 0 where
  pub id : String
  pub token_hash : String
  pub user_id : ℕ
  pub expires_at : ℕ
  pub used_at : Option ℕ
  pub created_at : ℕ

pub record LoginHistory : Type 0 where
  pub user_id : ℕ
  pub ip : Option String
  pub user_agent : Option String

pub record LoginAttempt : Type 0 where
  pub email : Text
  pub success : Bool
  pub attempted_at : ℕ

pub record Database : Type 0 where
  pub usuarios : List UsuarioRow
  pub vinculos : List Vinculo
  pub refresh_tokens : List RefreshToken
  pub reset_tokens : List PasswordResetToken
  pub login_history : List LoginHistory
  pub login_attempts : List LoginAttempt
