-- ===== src/Empresas/Memberships.antt =====
-- The table UsuarioEmpresa in src/empresas/infrastructure/repositories/prisma-empresa.repository.ts.
-- The extension scopes the listings to the context's company, whatever company they ask for, and
-- leaves `upsert` alone (Extension).
use api_padrao.Prelude.{
  ℕ, String, Text, Bool, not, ◌&&◌, Option, none, some, List, [], ◌∷◌, ◌++◌, any, find,
  select_where, update_where, includes, length, ◌==◌, nat_eq, string_eq, if◌then◌else◌,
}
use api_padrao.Http.{unexpected, ok, err}
use api_padrao.Extension.{present}
use api_padrao.Usuarios.Listing.{PaginationDto, take, drop}
use api_padrao.Permissoes.Service.{paginated}
use api_padrao.Cadastro.{PerfilRow, UsuarioEmpresaRow, Cadastro, Handler, Paginated}
use api_padrao.Empresas.Repository.{has_id, is_user}

-- `usuarioId_empresaId`
abbrev pub is_membership : ℕ → String → UsuarioEmpresaRow → Bool
is_membership usuario_id empresa_id v = v.usuario_id == usuario_id && v.empresa_id == empresa_id

abbrev pub lists_perfil : List PerfilRow → ℕ → Bool
lists_perfil rows id = any (λ (p : PerfilRow). p.id == id) rows

abbrev pub set_perfis : List ℕ → UsuarioEmpresaRow → UsuarioEmpresaRow
set_perfis perfil_ids v = record v { perfis = perfil_ids }

-- `update` where the pair has a row, `create` where it has none
unfoldable pub upsert : ℕ → String → List ℕ → List UsuarioEmpresaRow → List UsuarioEmpresaRow
unfolding any update_where
upsert usuario_id empresa_id perfil_ids rows =
    if any (is_membership usuario_id empresa_id) rows
    then update_where (is_membership usuario_id empresa_id) (set_perfis perfil_ids) rows
    else rows
      ++ (record { usuario_id = usuario_id; empresa_id = empresa_id; perfis = perfil_ids }) ∷ []

-- a profile that does not exist cannot be joined (P2025)
unfoldable pub add_user_to_company : String → ℕ → List ℕ → Handler (Unit {0})
unfolding any upsert
add_user_to_company empresa_id usuario_id perfil_ids c =
    if any (λ id. not (lists_perfil c.perfis id)) perfil_ids then (err (unexpected 2025), c) else (
      ok tt,
      record c { usuario_empresas = upsert usuario_id empresa_id perfil_ids c.usuario_empresas },
    )

pub record UsuarioDaEmpresa : Type 0 where
  pub id : ℕ
  pub email : Text
  pub ativo : Bool
  pub perfis : List PerfilRow

pub record EmpresaDoUsuario : Type 0 where
  pub id : String
  pub nome : Text
  pub plano : String
  pub ativo : Bool
  pub created_at : ℕ
  pub updated_at : ℕ
  pub deleted_at : Option ℕ
  pub perfis : List PerfilRow

-- a joined profile comes deleted or not
unfoldable pub perfis_joined : List PerfilRow → UsuarioEmpresaRow → List PerfilRow
unfolding select_where includes
perfis_joined perfis v = select_where (λ (p : PerfilRow). includes p.id v.perfis) perfis

-- `{ ...item.usuario, perfis: item.perfis }`; the foreign key says that there is a user
unfoldable pub with_users : Cadastro → List UsuarioEmpresaRow → List UsuarioDaEmpresa
unfolding find perfis_joined
with_users c [] = []
with_users c (v ∷ vs) = elim (find (is_user v.usuario_id) c.usuarios) [
  | none ↦ with_users c vs
  | some u ↦
      (record { id = u.id; email = u.email; ativo = u.ativo; perfis = perfis_joined c.perfis v })
      ∷ with_users c vs
]

unfoldable pub with_companies : Cadastro → List UsuarioEmpresaRow → List EmpresaDoUsuario
unfolding find perfis_joined
with_companies c [] = []
with_companies c (v ∷ vs) = elim (find (has_id v.empresa_id) c.empresas) [
  | none ↦ with_companies c vs
  | some e ↦
      (record {
        id = e.id;
        nome = e.nome;
        plano = e.plano;
        ativo = e.ativo;
        created_at = e.created_at;
        updated_at = e.updated_at;
        deleted_at = e.deleted_at;
        perfis = perfis_joined c.perfis v;
      })
      ∷ with_companies c vs
]

-- `{ empresaId }`, which the company of the context takes the place of
abbrev pub in_company : Option String → String → UsuarioEmpresaRow → Bool
in_company none asked v = v.empresa_id == asked
in_company (some e) asked v = v.empresa_id == e

unfoldable pub find_users_by_company :
    Option String → String → PaginationDto → Cadastro → Paginated UsuarioDaEmpresa
unfolding select_where take drop with_users present
find_users_by_company context empresa_id dto c =
    let rows = select_where (in_company (present context) empresa_id) c.usuario_empresas in
    paginated dto (λ skip limit. (with_users c (take limit (drop skip rows)), length rows))

-- `{ usuarioId }`, with the company of the context if there is one
abbrev pub of_user : Option String → ℕ → UsuarioEmpresaRow → Bool
of_user none usuario_id v = v.usuario_id == usuario_id
of_user (some e) usuario_id v = v.usuario_id == usuario_id && v.empresa_id == e

unfoldable pub find_companies_by_user :
    Option String → ℕ → PaginationDto → Cadastro → Paginated EmpresaDoUsuario
unfolding select_where take drop with_companies present
find_companies_by_user context usuario_id dto c =
    let rows = select_where (of_user (present context) usuario_id) c.usuario_empresas in
    paginated dto (λ skip limit. (with_companies c (take limit (drop skip rows)), length rows))
