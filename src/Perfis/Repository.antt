-- ===== src/Perfis/Repository.antt =====
-- src/perfis/infrastructure/repositories/prisma-perfil.repository.ts. Through the extended client a
-- read sees the rows of the context's company that are not deleted, a write by id reaches the rows
-- of that company, and an insert keeps the company that it is given (Extension); the plain client
-- adds nothing. A joined permission comes deleted or not.
use api_padrao.Prelude.{
  ℕ, String, Text, Bool, true, false, ◌&&◌, Option, none, some, List, [], ◌∷◌, ◌++◌, find,
  select_where, includes, length, map, ◌==◌, nat_eq, string_eq, text_eq, if◌then◌else◌,
}
use mathlib.Core.Option
use api_padrao.Extension.{present}
use api_padrao.Usuarios.Repository.{is_none}
use api_padrao.Usuarios.Listing.{take, drop}
use api_padrao.Cadastro.{Permissao, PermissaoRow, PerfilRow, UsuarioEmpresaRow, Cadastro}
use api_padrao.Permissoes.Repository.{to_domain as to_permissao_domain}

-- src/perfis/domain/entities/perfil.entity.ts
pub record Perfil : Type 0 where
  pub id : ℕ
  pub nome : Text
  pub codigo : String
  pub descricao : String
  pub deleted_at : Option ℕ
  pub ativo : Bool
  pub empresa_id : String
  pub permissoes : Option (List Permissao)

pub record CreatePerfilDto : Type 0 where
  pub nome : Text
  pub codigo : String
  pub descricao : String
  pub empresa_id : String
  pub permissoes_ids : Option (List ℕ)

pub record UpdatePerfilDto : Type 0 where
  pub nome : Option Text
  pub codigo : Option String
  pub descricao : Option String
  pub empresa_id : Option String
  pub permissoes_ids : Option (List ℕ)
  pub ativo : Option Bool

abbrev pub to_domain : PerfilRow → Option (List Permissao) → Perfil
to_domain row permissoes = record {
  id = row.id;
  nome = row.nome;
  codigo = row.codigo;
  descricao = row.descricao;
  deleted_at = row.deleted_at;
  ativo = row.ativo;
  empresa_id = row.empresa_id;
  permissoes = permissoes;
}

unfoldable pub joined : List PermissaoRow → PerfilRow → Perfil
unfolding select_where includes
joined permissoes row = to_domain row (
    some (
      map to_permissao_domain
        (select_where (λ (p : PermissaoRow). includes p.id row.permissoes) permissoes)))

abbrev pub has_id : ℕ → PerfilRow → Bool
has_id id row = row.id == id

-- a filter on the company, if there is one
abbrev pub is_of : Option String → PerfilRow → Bool
is_of none row = true
is_of (some e) row = row.empresa_id == e

-- the context's company takes the place of the one in the caller's filter
abbrev pub scope : Option String → Option String → Option String
scope context given = elim (present context) [ some e ↦ some e | none ↦ present given ]

unfoldable pub is_visible : Option String → Option String → Bool → PerfilRow → Bool
unfolding present
is_visible context given include_deleted row =
    if include_deleted
    then is_of (present given) row
    else is_of (scope context given) row && is_none row.deleted_at

unfoldable pub find_all : Option String → ℕ → ℕ → Bool → Option String → Cadastro → List Perfil × ℕ
unfolding take drop select_where is_visible joined
find_all context skip limit include_deleted empresa_id c =
    let rows = select_where (is_visible context empresa_id include_deleted) c.perfis in
    (map (joined c.permissoes) (take limit (drop skip rows)), length rows)

unfoldable pub find_one : Option String → ℕ → Bool → Option String → Cadastro → Option Perfil
unfolding find is_visible joined
find_one context id include_deleted empresa_id c =
    Option.map (joined c.permissoes)
      (find (λ r. is_visible context empresa_id include_deleted r && has_id id r) c.perfis)

unfoldable pub find_by_nome : Option String → Text → Bool → Option String → Cadastro → Option Perfil
unfolding find is_visible joined
find_by_nome context nome include_deleted empresa_id c =
    Option.map (joined c.permissoes)
      (find (λ r. is_visible context empresa_id include_deleted r && (r.nome == nome)) c.perfis)

unfoldable pub find_by_nome_containing :
    (Text → Text → Bool)
    → Option String
    → Text
    → ℕ
    → ℕ
    → Bool
    → Option String
    → Cadastro
    → List Perfil × ℕ
unfolding take drop select_where is_visible joined
find_by_nome_containing contains context nome skip limit include_deleted empresa_id c =
    let rows =
      select_where (λ r. is_visible context empresa_id include_deleted r && contains r.nome nome)
        c.perfis in
    (map (joined c.permissoes) (take limit (drop skip rows)), length rows)

-- the query does not join the permissions
unfoldable pub find_many_by_ids : Option String → List ℕ → Cadastro → List Perfil
unfolding select_where is_visible includes
find_many_by_ids context [] c = []
find_many_by_ids context (i ∷ ids) c =
    map (λ r. to_domain r none)
      (select_where (λ (r : PerfilRow). is_visible context none false r && includes r.id (i ∷ ids))
        c.perfis)

-- `for (const r of rows) if (!seen.has(r.usuarioId)) { seen.add(…); out.push(…) }`
unfoldable pub collect : List ℕ → List ℕ → List ℕ → List ℕ
unfolding includes
collect [] seen out = out
collect (r ∷ rows) seen out = elim (includes r seen) [
  | true ↦ collect rows seen out
  | false ↦ collect rows (r ∷ seen) (out ++ r ∷ [])
]

abbrev pub grants_perfil : Option String → ℕ → UsuarioEmpresaRow → Bool
grants_perfil none perfil_id v = includes perfil_id v.perfis
grants_perfil (some e) perfil_id v = includes perfil_id v.perfis && (v.empresa_id == e)

unfoldable pub find_user_ids_by_perfil_id : Option String → ℕ → Cadastro → List ℕ
unfolding select_where collect present includes
find_user_ids_by_perfil_id context perfil_id c =
    collect
      (map (λ (v : UsuarioEmpresaRow). v.usuario_id)
        (select_where (grants_perfil (present context) perfil_id) c.usuario_empresas))
      [] []
