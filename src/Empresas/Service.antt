-- ===== src/Empresas/Service.antt =====
-- src/empresas/application/services/empresas.service.ts.
use api_padrao.Prelude.{
  ℕ, String, Text, Bool, not, ◌&&◌, Option, none, some, List, [], ◌∷◌, ◌++◌, any, find, ◌==◌,
  nat_eq,
}
use mathlib.Core.Option
use api_padrao.Http.{
  not_found, empresa_nao_encontrada, usuario_nao_encontrado, perfil_nao_encontrado, ok, err,
}
use api_padrao.Database.{UsuarioRow}
use api_padrao.World.{Mail, Ports, text, str}
use api_padrao.Exec.{gets, or_raise, raise_if, ◌>>=◌, ◌>>◌}
use api_padrao.Usuarios.Entity.{Usuario}
use api_padrao.Usuarios.Repository.{is_none, map_to_entity}
use api_padrao.Usuarios.Listing.{PaginationDto}
use api_padrao.Cadastro.{Cadastro, Handler, Paginated}
use api_padrao.Perfis.Repository.{Perfil, find_many_by_ids}
use api_padrao.Empresas.Repository.{Empresa, CreateEmpresaDto, UpdateEmpresaDto}
use api_padrao.Empresas.Repository
use api_padrao.Empresas.Memberships.{UsuarioDaEmpresa, EmpresaDoUsuario, add_user_to_company}
use api_padrao.Empresas.Memberships

pub record AddUsuarioEmpresaDto : Type 0 where
  pub usuario_id : ℕ
  pub perfil_ids : List ℕ

unfoldable pub create : ℕ → String → CreateEmpresaDto → Handler Empresa
unfolding Repository.create
create now id dto = Repository.create now id dto

unfoldable pub find_all : PaginationDto → Handler (Paginated Empresa)
unfolding Repository.find_all
find_all dto = gets (Repository.find_all dto)

unfoldable pub find_one : String → Handler Empresa
unfolding Repository.find_one
find_one id = do
  empresa ← gets (Repository.find_one id)
  or_raise empresa (not_found empresa_nao_encontrada)

unfoldable pub update : ℕ → String → UpdateEmpresaDto → Handler Empresa
unfolding find_one Repository.update
update now id dto = do find_one id; Repository.update now id dto

unfoldable pub remove : ℕ → String → Handler (Unit {0})
unfolding find_one Repository.remove
remove now id = do find_one id; Repository.remove now id

abbrev pub is_live_user : ℕ → UsuarioRow → Bool
is_live_user id u = u.id == id && is_none u.deleted_at

-- `usuarioRepository.findOne(id)`
unfoldable pub find_usuario : ℕ → Cadastro → Option Usuario
unfolding find
find_usuario id c = Option.map map_to_entity (find (is_live_user id) c.usuarios)

-- `perfilIds.find((id) => !encontrados.has(id))`, of which the message tells
unfoldable pub some_missing : List Perfil → List ℕ → Bool
unfolding any
some_missing perfis ids = any (λ id. not (any (λ (p : Perfil). p.id == id) perfis)) ids

-- `perfis.map((p) => p.nome).join(', ')`
unfoldable pub join_names : List Perfil → Text
join_names [] = []
join_names (p ∷ []) = p.nome
join_names (p ∷ q ∷ ps) = p.nome ++ b',' ∷ b' ' ∷ join_names (q ∷ ps)

module _ (ports : Ports) where
  abbrev pub added_mail : Usuario → Empresa → List Perfil → Mail
  added_mail usuario empresa perfis = record {
    template = "empresas.user_added";
    to = usuario.email;
    variables =
        ("nomeUsuario", text usuario.email)
        ∷ ("nomeEmpresa", text empresa.nome)
        ∷ ("perfis", text (join_names perfis))
        ∷ ("loginUrl", str (Option.get_or ports.app_login_url "http://localhost:3000"))
        ∷ [];
  }

  -- the e-mail sender: an e-mail that it does not raise on has been handed over
  abbrev pub notify : Mail → Handler (Unit {0})
  notify mail c = elim (ports.send_failure mail) [
    | none ↦ (ok tt, record c { mails = mail ∷ c.mails })
    | some e ↦ (err e, c)
  ]

  abbrev pub join_company :
      String → AddUsuarioEmpresaDto → Empresa → Usuario → List Perfil → Handler (Unit {0})
  join_company empresa_id dto empresa usuario perfis = do
    raise_if (some_missing perfis dto.perfil_ids) (not_found perfil_nao_encontrado)
    add_user_to_company empresa_id dto.usuario_id dto.perfil_ids
    notify (added_mail usuario empresa perfis)

  -- what follows the lookup of the company
  abbrev pub join_found :
      Option String → String → AddUsuarioEmpresaDto → Empresa → Handler (Unit {0})
  join_found context empresa_id dto empresa = do
    found ← gets (find_usuario dto.usuario_id)
    usuario ← or_raise found (not_found usuario_nao_encontrado)
    perfis ← gets (find_many_by_ids context dto.perfil_ids)
    join_company empresa_id dto empresa usuario perfis

  -- `context` is the company of `contextStorage`, which the lookup of the profiles is scoped to
  unfoldable pub add_user : Option String → String → AddUsuarioEmpresaDto → Handler (Unit {0})
  unfolding find_one find_usuario find_many_by_ids some_missing add_user_to_company join_names
  add_user context empresa_id dto = do
    empresa ← find_one empresa_id
    join_found context empresa_id dto empresa

unfoldable pub find_users_by_company :
    Option String → String → PaginationDto → Handler (Paginated UsuarioDaEmpresa)
unfolding find_one Memberships.find_users_by_company
find_users_by_company context empresa_id dto = do
  find_one empresa_id
  gets (Memberships.find_users_by_company context empresa_id dto)

unfoldable pub find_companies_by_user :
    Option String → ℕ → PaginationDto → Handler (Paginated EmpresaDoUsuario)
unfolding find_usuario Memberships.find_companies_by_user
find_companies_by_user context usuario_id dto = do
  found ← gets (find_usuario usuario_id)
  or_raise found (not_found usuario_nao_encontrado)
  gets (Memberships.find_companies_by_user context usuario_id dto)
