-- ===== src/Permissoes/Service.antt =====
-- src/permissoes/application/services/permissoes.service.ts. `now` is the request's time.
use api_padrao.Prelude.{
  ℕ, ◌+◌, ◌-◌, ◌*◌, Text, Bool, true, false, not, Option, none, some, List, [], ◌∷◌, any, ltb,
  length, ◌==◌, nat_eq, if◌then◌else◌,
}
use mathlib.Core.Option
use api_padrao.Payload.{JwtPayload}
use api_padrao.Payload.Authority.{is_admin}
use api_padrao.Http.{
  not_found, conflict, forbidden, permissao_nao_encontrada, permissoes_nao_encontradas,
  nome_ja_existe, nao_esta_deletado, ja_esta_deletado, sem_permissao_de_restaurar,
  sem_permissao_de_deletar, ok, err,
}
use api_padrao.Exec.{pure, gets, or_raise, raise_if, ◌>>=◌, ◌>>◌}
use api_padrao.Usuarios.Repository.{is_none}
use api_padrao.Usuarios.Listing.{PaginationDto, pages_for}
use api_padrao.Cadastro.{Permissao, PermissoesCache, Handler, Paginated}
use api_padrao.Permissoes.Repository.{CreatePermissaoDto, UpdatePermissaoDto}
use api_padrao.Permissoes.Repository

unfoldable pub create : CreatePermissaoDto → Handler Permissao
unfolding Repository.find_by_nome Repository.create
create dto = do
  existing ← gets (Repository.find_by_nome dto.nome false)
  raise_if (not (is_none existing)) (conflict nome_ja_existe)
  Repository.create dto

-- the page that the query parameters ask for, of a listing that takes `skip` and `take`
abbrev pub paginated : {A : Type 0} → PaginationDto → (ℕ → ℕ → List A × ℕ) → Paginated A
paginated dto listing =
    let page = Option.get_or dto.page 1 in
    let limit = Option.get_or dto.limit 10 in
    let (rows, total) = listing ((page - 1) * limit) limit in
    record {
      data_page = rows;
      total = total;
      page = page;
      limit = limit;
      total_pages = pages_for total limit;
    }

unfoldable pub find_all : PaginationDto → Bool → Handler (Paginated Permissao)
unfolding Repository.find_all
find_all dto include_deleted =
    gets (λ c. paginated dto (λ skip limit. Repository.find_all skip limit include_deleted c))

unfoldable pub find_one : ℕ → Bool → Handler Permissao
unfolding Repository.find_one
find_one id include_deleted = do
  permissao ← gets (Repository.find_one id include_deleted)
  or_raise permissao (not_found permissao_nao_encontrada)

abbrev pub cache_ttl_ms : ℕ
cache_ttl_ms = 300000

-- `cache && now - cache.ts < CACHE_TTL_MS`
abbrev pub is_fresh : ℕ → Option PermissoesCache → Bool
is_fresh now none = false
is_fresh now (some cache) = ltb now (cache.ts + cache_ttl_ms)

-- the map that the call works on: the cached one itself, or a new one
abbrev pub working_map : ℕ → Option PermissoesCache → ℕ → Option Permissao
working_map now none id = none
working_map now (some cache) id = if is_fresh now (some cache) then cache.entries id else none

-- `for (const p of fetched) map.set(p.id, p)`
unfoldable pub set_all : List Permissao → (ℕ → Option Permissao) → ℕ → Option Permissao
set_all [] entries id = entries id
set_all (p ∷ ps) entries id = set_all ps (λ j. if p.id == j then some p else entries j) id

-- the cached map is changed in place, before the call raises
abbrev pub after_failure :
    ℕ → Option PermissoesCache → (ℕ → Option Permissao) → Option PermissoesCache
after_failure now none entries = none
after_failure now (some cache) entries =
    if is_fresh now (some cache) then some (record cache { entries = entries }) else some cache

-- `ids.filter((id) => !foundIds.has(id))`
unfoldable pub not_found_among : List Permissao → List ℕ → List ℕ
unfolding any
not_found_among fetched [] = []
not_found_among fetched (id ∷ ids) =
    let rest = not_found_among fetched ids in
    if any (λ (p : Permissao). p.id == id) fetched then rest else id ∷ rest

abbrev pub check_fetched : ℕ → List ℕ → List Permissao → Handler (List Permissao)
check_fetched now ids fetched c =
    let entries = set_all fetched (working_map now c.permissoes_cache) in
    if ltb (length fetched) (length ids)
    then (
      err (not_found (permissoes_nao_encontradas (not_found_among fetched ids))),
      record c { permissoes_cache = after_failure now c.permissoes_cache entries },
    )
    else (ok fetched, record c { permissoes_cache = some (record { ts = now; entries = entries }) })

unfoldable pub find_many_by_ids : ℕ → List ℕ → Handler (List Permissao)
unfolding set_all not_found_among Repository.find_many_by_ids
find_many_by_ids now [] = pure []
find_many_by_ids now (i ∷ ids) = do
  fetched ← gets (Repository.find_many_by_ids (i ∷ ids))
  check_fetched now (i ∷ ids) fetched

module _ (contains : Text → Text → Bool) where
  unfoldable pub find_by_nome_containing :
      Text → PaginationDto → Bool → Handler (Paginated Permissao)
  unfolding Repository.find_by_nome_containing
  find_by_nome_containing nome dto include_deleted = gets (λ c.
      paginated dto (λ skip limit.
        Repository.find_by_nome_containing contains nome skip limit include_deleted c))

  unfoldable pub find_by_nome : Text → PaginationDto → Bool → Handler (Paginated Permissao)
  unfolding find_by_nome_containing
  find_by_nome nome dto include_deleted = find_by_nome_containing nome dto include_deleted

abbrev pub set_ativo : ℕ → ℕ → JwtPayload → Permissao → Bool → Handler Permissao
set_ativo now id logado permissao true = do
  raise_if (is_none permissao.deleted_at) (conflict nao_esta_deletado)
  raise_if (not (is_admin logado)) (forbidden sem_permissao_de_restaurar)
  Repository.restore id
set_ativo now id logado permissao false = do
  raise_if (not (is_none permissao.deleted_at)) (conflict ja_esta_deletado)
  raise_if (not (is_admin logado)) (forbidden sem_permissao_de_deletar)
  Repository.remove now id

-- an `ativo` in the request leaves the other fields of the request unused
abbrev pub apply_update :
    ℕ → ℕ → UpdatePermissaoDto → JwtPayload → Permissao → Option Bool → Handler Permissao
apply_update now id dto logado permissao (some ativo) = set_ativo now id logado permissao ativo
apply_update now id dto logado permissao none = do
  updated ← Repository.update id dto
  or_raise updated (not_found permissao_nao_encontrada)

unfoldable pub update : ℕ → ℕ → UpdatePermissaoDto → JwtPayload → Handler Permissao
unfolding Repository.find_one Repository.update Repository.remove Repository.restore is_admin
update now id dto logado = do
  found ← gets (Repository.find_one id true)
  permissao ← or_raise found (not_found permissao_nao_encontrada)
  apply_update now id dto logado permissao dto.ativo

unfoldable pub remove : ℕ → ℕ → JwtPayload → Handler Permissao
unfolding Repository.find_one Repository.remove is_admin
remove now id logado = do
  found ← gets (Repository.find_one id false)
  or_raise found (not_found permissao_nao_encontrada)
  raise_if (not (is_admin logado)) (forbidden sem_permissao_de_deletar)
  Repository.remove now id

unfoldable pub restore : ℕ → JwtPayload → Handler Permissao
unfolding Repository.find_one Repository.restore is_admin
restore id logado = do
  found ← gets (Repository.find_one id true)
  permissao ← or_raise found (not_found permissao_nao_encontrada)
  raise_if (is_none permissao.deleted_at) (conflict nao_esta_deletado)
  raise_if (not (is_admin logado)) (forbidden sem_permissao_de_restaurar)
  Repository.restore id
