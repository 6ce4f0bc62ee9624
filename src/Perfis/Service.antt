-- ===== src/Perfis/Service.antt =====
-- src/perfis/application/services/perfis.service.ts.
use api_padrao.Prelude.{
  ℕ, String, Text, Bool, true, false, not, Option, none, some, List, [], ◌∷◌, map, string_eq,
  nat_eq, if◌then◌else◌,
}
use mathlib.Core.Option
use api_padrao.Payload.{JwtPayload}
use api_padrao.Payload.Authority.{is_admin}
use api_padrao.Http.{
  not_found, conflict, forbidden, perfil_nao_encontrado, nome_ja_existe, nao_esta_deletado,
  ja_esta_deletado, sem_permissao_de_ativar,
}
use api_padrao.Exec.{pure, gets, modify, or_raise, raise_if, ◌>>=◌, ◌>>◌}
use api_padrao.Extension.{present}
use api_padrao.Cache
use api_padrao.Usuarios.Repository.{is_none}
use api_padrao.Usuarios.Listing.{PaginationDto}
use api_padrao.Cadastro.{Permissao, Cadastro, Handler, Paginated}
use api_padrao.Permissoes.Service.{find_many_by_ids as find_permissoes, paginated}
use api_padrao.Perfis.Repository.{
  Perfil, CreatePerfilDto, UpdatePerfilDto, find_user_ids_by_perfil_id,
}
use api_padrao.Perfis.Repository
use api_padrao.Perfis.Writes

-- One request: the company of `contextStorage`, the time, and whether the cache fails to delete.
pub record Contexto : Type 0 where
  pub empresa_id : Option String
  pub now : ℕ
  pub cache_down : Bool

-- `if (permissoesIds && permissoesIds.length > 0)`: a lookup that raises for a missing permission
abbrev pub check_given : ℕ → Option (List ℕ) → Handler (Unit {0})
check_given now none = pure tt
check_given now (some []) = pure tt
check_given now (some (i ∷ ids)) = do find_permissoes now (i ∷ ids); pure tt

-- `if (permissoesIds)`, which an empty list passes
abbrev pub check_asked : ℕ → Option (List ℕ) → Handler (Unit {0})
check_asked now none = pure tt
check_asked now (some ids) = do find_permissoes now ids; pure tt

unfoldable pub create : Contexto → CreatePerfilDto → Handler Perfil
unfolding find_permissoes Repository.find_by_nome Writes.create
create ctx dto = do
  check_given ctx.now dto.permissoes_ids
  existing ← gets (Repository.find_by_nome ctx.empresa_id dto.nome false (some dto.empresa_id))
  raise_if (not (is_none existing)) (conflict nome_ja_existe)
  Writes.create ctx.empresa_id dto

unfoldable pub find_all :
    Contexto → PaginationDto → Bool → Option String → Handler (Paginated Perfil)
unfolding Repository.find_all
find_all ctx dto include_deleted empresa_id = gets (λ c.
    paginated dto
      (λ skip limit. Repository.find_all ctx.empresa_id skip limit include_deleted empresa_id c))

unfoldable pub find_one : Contexto → ℕ → Bool → Option String → Handler Perfil
unfolding Repository.find_one
find_one ctx id include_deleted empresa_id = do
  perfil ← gets (Repository.find_one ctx.empresa_id id include_deleted empresa_id)
  or_raise perfil (not_found perfil_nao_encontrado)

unfoldable pub find_by_nome_containing :
    (Text → Text → Bool)
    → Contexto
    → Text
    → PaginationDto
    → Bool
    → Option String
    → Handler (Paginated Perfil)
unfolding Repository.find_by_nome_containing
find_by_nome_containing contains ctx nome dto include_deleted empresa_id = gets (λ c.
    paginated dto (λ skip limit.
      Repository.find_by_nome_containing contains ctx.empresa_id nome skip limit include_deleted
        empresa_id c))

abbrev pub set_ativo : Contexto → ℕ → Option String → Perfil → Bool → Handler Perfil
set_ativo ctx id empresa_id perfil true = do
  raise_if (is_none perfil.deleted_at) (conflict nao_esta_deletado)
  Writes.restore ctx.empresa_id id empresa_id
set_ativo ctx id empresa_id perfil false = do
  raise_if (not (is_none perfil.deleted_at)) (conflict ja_esta_deletado)
  Writes.remove ctx.empresa_id ctx.now id

-- `invalidateUserCache`, whose failure is only logged
abbrev pub drop_profile : Bool → ℕ → Cadastro → Cadastro
drop_profile down id c = if down then c else record c { profiles = Cache.del id c.profiles }

-- `for (const userId of userIds) await invalidateUserCache(userId)`
unfoldable pub drop_profiles : Bool → List ℕ → Cadastro → Cadastro
drop_profiles down [] c = c
drop_profiles down (id ∷ ids) c = drop_profiles down ids (drop_profile down id c)

abbrev pub invalidate_affected : Contexto → ℕ → Option (List ℕ) → Handler (Unit {0})
invalidate_affected ctx id none = pure tt
invalidate_affected ctx id (some ids) = do
  user_ids ← gets (find_user_ids_by_perfil_id ctx.empresa_id id)
  modify (drop_profiles ctx.cache_down user_ids)

-- what follows the write
abbrev pub answer_updated : Contexto → ℕ → Option (List ℕ) → Option Perfil → Handler Perfil
answer_updated ctx id permissoes_ids updated = do
  perfil ← or_raise updated (not_found perfil_nao_encontrado)
  invalidate_affected ctx id permissoes_ids
  pure perfil

abbrev pub write_fields : Contexto → ℕ → UpdatePerfilDto → Handler Perfil
write_fields ctx id dto = do
  updated ← Writes.update ctx.empresa_id id dto
  answer_updated ctx id dto.permissoes_ids updated

-- an `ativo` in the request leaves the other fields of the request unused
abbrev pub apply_update :
    Contexto
    → ℕ
    → UpdatePerfilDto
    → JwtPayload
    → Option String
    → Perfil
    → Option Bool
    → Handler Perfil
apply_update ctx id dto logado empresa_id perfil none = write_fields ctx id dto
apply_update ctx id dto logado empresa_id perfil (some ativo) = do
  raise_if (not (is_admin logado)) (forbidden sem_permissao_de_ativar)
  set_ativo ctx id empresa_id perfil ativo

-- what follows the check of the permissions
abbrev pub update_checked :
    Contexto → ℕ → UpdatePerfilDto → JwtPayload → Option String → Handler Perfil
update_checked ctx id dto logado empresa_id = do
  found ← gets (Repository.find_one ctx.empresa_id id true empresa_id)
  perfil ← or_raise found (not_found perfil_nao_encontrado)
  apply_update ctx id dto logado empresa_id perfil dto.ativo

unfoldable pub update : Contexto → ℕ → UpdatePerfilDto → JwtPayload → Option String → Handler Perfil
unfolding find_permissoes Repository.find_one Writes.update Writes.remove Writes.restore
    drop_profiles find_user_ids_by_perfil_id is_admin
update ctx id dto logado empresa_id = do
  check_asked ctx.now dto.permissoes_ids
  update_checked ctx id dto logado empresa_id

-- `(perfil.permissoes ?? []).map((p) => p.codigo)`
abbrev pub codigos_of : Perfil → List String
codigos_of perfil = map (λ (p : Permissao). p.codigo) (Option.get_or perfil.permissoes [])

abbrev pub list_in : Contexto → ℕ → Option String → Handler (List String)
list_in ctx id none = pure []
list_in ctx id (some e) = do
  found ← gets (Repository.find_one ctx.empresa_id id false (some e))
  perfil ← or_raise found (not_found perfil_nao_encontrado)
  pure (codigos_of perfil)

-- `id` is the number that the text of the path gives
unfoldable pub list_permissoes_by_perfil_id : Contexto → ℕ → Option String → Handler (List String)
unfolding Repository.find_one present
list_permissoes_by_perfil_id ctx id empresa_id = list_in ctx id (present empresa_id)
