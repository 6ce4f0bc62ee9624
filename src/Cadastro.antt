-- ===== src/Cadastro.antt =====
-- The tables Permissao, Perfil, Empresa and UsuarioEmpresa of prisma/schema.prisma, with what the
-- services of permissions, profiles and companies keep beside them. A column that no modelled code
-- reads is left out; a many-to-many relation is the list of the ids that it joins.
use api_padrao.Prelude.{ℕ, String, Text, Bool, Option, List}
use api_padrao.Cache.{CacheMap}
use api_padrao.Database.{UsuarioRow}
use api_padrao.World.{Mail}
use api_padrao.Usuarios.Entity.{Usuario}
use api_padrao.Exec.{ExecOn}

-- src/permissoes/domain/entities/permissao.entity.ts; `ativo` is undefined where a query does not
-- select it
pub record Permissao : Type 0 where
  pub id : ℕ
  pub nome : Text
  pub codigo : String
  pub descricao : String
  pub deleted_at : Option ℕ
  pub ativo : Option Bool

pub record PermissaoRow : Type 0 where
  pub id : ℕ
  pub nome : Text
  pub codigo : String
  pub descricao : String
  pub deleted_at : Option ℕ
  pub ativo : Bool

pub record PerfilRow : Type 0 where
  pub id : ℕ
  pub nome : Text
  pub codigo : String
  pub descricao : String
  pub empresa_id : String
  pub permissoes : List ℕ
  pub deleted_at : Option ℕ
  pub ativo : Bool

pub record EmpresaRow : Type 0 where
  pub id : String
  pub nome : Text
  pub descricao : Option String
  pub responsavel_id : ℕ
  pub plano : String
  pub ativo : Bool
  pub created_at : ℕ
  pub updated_at : ℕ
  pub deleted_at : Option ℕ

pub record UsuarioEmpresaRow : Type 0 where
  pub usuario_id : ℕ
  pub empresa_id : String
  pub perfis : List ℕ

-- the static `cache` of PermissoesService: its time stamp, and its `Map` of permissions by id
pub record PermissoesCache : Type 0 where
  pub ts : ℕ
  pub entries : ℕ → Option Permissao

-- The `…_seq` are the sequences behind `@default(autoincrement())`.
pub record Cadastro : Type 0 where
  pub permissoes : List PermissaoRow
  pub perfis : List PerfilRow
  pub empresas : List EmpresaRow
  pub usuario_empresas : List UsuarioEmpresaRow
  pub usuarios : List UsuarioRow
  pub permissao_seq : ℕ
  pub perfil_seq : ℕ
  pub permissoes_cache : Option PermissoesCache
  pub profiles : CacheMap ℕ Usuario
  pub mails : List Mail

abbrev pub Handler : Type 0 → Type 0
Handler A = ExecOn Cadastro A

-- one page of a listing, with the size of the whole
pub record Paginated (A : Type 0) : Type 0 where
  pub data_page : List A
  pub total : ℕ
  pub page : ℕ
  pub limit : ℕ
  pub total_pages : ℕ
