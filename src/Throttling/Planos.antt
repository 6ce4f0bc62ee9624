-- ===== src/Throttling/Planos.antt =====
-- src/shared/infrastructure/throttling/plano.service.ts. `none` stands for a call that raises.
use api_padrao.Prelude.{
  ℕ, ◌+◌, String, Bool, not, ◌&&◌, ◌||◌, Option, none, some, List, find, ◌==◌, string_eq,
  if◌then◌else◌,
}
use api_padrao.Cache
use api_padrao.Cache.{CacheMap}
use api_padrao.World.{Outage}
use api_padrao.Usuarios.Repository.{is_none}
use api_padrao.Throttling.Limits.{default_plano, plano_ttl_ms, plano_limits}

-- the columns that the query selects
pub record EmpresaRow : Type 0 where
  pub id : String
  pub plano : String
  pub ativo : Bool
  pub deleted_at : Option ℕ

pub record Tenants : Type 0 where
  pub empresas : List EmpresaRow
  pub planos : CacheMap String String

-- the instant of the call, and the calls of Redis and of the database that raise
pub record Moment : Type 0 where
  pub now : ℕ
  pub outage : Outage

module _ (is_test_env : Bool) where
  -- `Object.prototype.hasOwnProperty.call(PLANO_LIMITS, value)`
  unfoldable pub is_valid_plano : String → Bool
  unfolding plano_limits
  is_valid_plano value = not (is_none (plano_limits is_test_env value))

  -- `cached && this.isValidPlano(cached)`
  abbrev pub valid_cached : Option String → Option String
  valid_cached none = none
  valid_cached (some value) = if not (value == "") && is_valid_plano value then some value else none

  abbrev pub cached_plano : Moment → String → Tenants → Option String
  cached_plano at empresa_id t =
      if at.outage.cache_get then none else Cache.get at.now empresa_id t.planos

  abbrev pub cache_plano : Moment → String → String → Tenants → Tenants
  cache_plano at empresa_id plano t =
      if at.outage.cache_set
      then t
      else record t { planos = Cache.set empresa_id plano (at.now + plano_ttl_ms) t.planos }

  abbrev pub is_row : String → EmpresaRow → Bool
  is_row id e = e.id == id

  abbrev pub plano_of : Moment → String → Option EmpresaRow → Tenants → String × Tenants
  plano_of at empresa_id none t = (default_plano, t)
  plano_of at empresa_id (some empresa) t =
      if not empresa.ativo || not (is_none empresa.deleted_at)
      then (default_plano, t)
      else if not (is_valid_plano empresa.plano)
      then (default_plano, t)
      else (empresa.plano, cache_plano at empresa_id empresa.plano t)

  abbrev pub read_plano : Moment → String → Tenants → Option String × Tenants
  read_plano at empresa_id t =
      if at.outage.prisma
      then (none, t)
      else let (plano, t') = plano_of at empresa_id (find (is_row empresa_id) t.empresas) t in
        (some plano, t')

  abbrev pub with_cached : Moment → String → Option String → Tenants → Option String × Tenants
  with_cached at empresa_id (some plano) t = (some plano, t)
  with_cached at empresa_id none t = read_plano at empresa_id t

  unfoldable pub get_plano_by_empresa_id : Moment → String → Tenants → Option String × Tenants
  unfolding is_valid_plano
  get_plano_by_empresa_id at empresa_id t =
      with_cached at empresa_id (valid_cached (cached_plano at empresa_id t)) t

unfoldable pub invalidate : Moment → String → Tenants → Tenants
invalidate at empresa_id t =
    if at.outage.cache_del then t else record t { planos = Cache.del empresa_id t.planos }
