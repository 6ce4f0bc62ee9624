-- ===== src/Payload.antt =====
-- src/auth/domain/types/jwt-payload.ts and the payload of src/auth/infrastructure/strategies/jwt.strategy.ts:
-- the full form that the repositories load, and the small form that travels in the token.
pub mod Authority
use mathlib.Core.Option
use api_padrao.Prelude.{ℕ, String, Text, Option, List, map}

pub record PermissaoCompleta : Type 0 where
  pub id : ℕ
  pub nome : String
  pub codigo : String
  pub descricao : String

pub record PerfilCompleto : Type 0 where
  pub id : ℕ
  pub nome : String
  pub codigo : String
  pub descricao : String
  pub permissoes : Option (List PermissaoCompleta)

pub record EmpresaAuth : Type 0 where
  pub empresa_id : String
  pub perfis : Option (List PerfilCompleto)

pub record PermissaoJwt : Type 0 where
  pub codigo : String

pub record PerfilJwt : Type 0 where
  pub codigo : String
  pub permissoes : Option (List PermissaoJwt)

pub record EmpresaJwt : Type 0 where
  pub id : String
  pub perfis : Option (List PerfilJwt)

pub record JwtAccessToken : Type 0 where
  pub sub : ℕ
  pub email : Text
  pub empresas : List EmpresaJwt

-- what a decoded token may hold, every claim but the e-mail optional
pub record JwtPayload : Type 0 where
  pub email : Text
  pub user_id : Option ℕ
  pub sub : Option ℕ
  pub empresas : Option (List EmpresaJwt)

-- the three nested `map` calls of `generateTokens` and `refreshTokens`
abbrev pub to_permissao_jwt : PermissaoCompleta → PermissaoJwt
to_permissao_jwt permissao = record { codigo = permissao.codigo }

unfoldable pub to_perfil_jwt : PerfilCompleto → PerfilJwt
to_perfil_jwt perfil = record {
  codigo = perfil.codigo;
  permissoes = Option.map (map to_permissao_jwt) perfil.permissoes;
}

unfoldable pub to_empresa_jwt : EmpresaAuth → EmpresaJwt
unfolding to_perfil_jwt
to_empresa_jwt ue = record { id = ue.empresa_id; perfis = Option.map (map to_perfil_jwt) ue.perfis }

-- `empresas?.map(…) ?? []`
unfoldable pub to_empresas_jwt : Option (List EmpresaAuth) → List EmpresaJwt
unfolding to_empresa_jwt
to_empresas_jwt empresas = Option.get_or (Option.map (map to_empresa_jwt) empresas) List.[]
