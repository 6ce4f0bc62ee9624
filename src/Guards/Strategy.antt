-- ===== src/Guards/Strategy.antt =====
-- src/auth/infrastructure/strategies/jwt.strategy.ts: `validate` and its cache of valid users.
pub mod Staleness
use mathlib.Core.Option
use api_padrao.Prelude.{
  ℕ, ◌+◌, String, Bool, true, false, not, ◌&&◌, Option, none, some, List, map, ◌==◌, nat_eq,
  if◌then◌else◌,
}
use api_padrao.Payload.{PermissaoJwt, PerfilJwt, EmpresaJwt, JwtPayload}
use api_padrao.Http.{unauthorized, usuario_inativo, ok, err}
use api_padrao.Database.{Database}
use api_padrao.Cache
use api_padrao.World.{World, Request}
use api_padrao.Exec.{Exec, pure, gets, modify, raise_if, ◌>>=◌, ◌>>◌}
use api_padrao.Usuarios.Entity.{Usuario}
use api_padrao.Usuarios.Repository.{is_none, find_one}

abbrev pub user_validity_ttl_ms : ℕ
user_validity_ttl_ms = 60000

-- `request.user`: what `validate` returns, with the field that the interceptor and the throttler
-- read beside those
pub record RequestUser : Type 0 where
  pub payload : JwtPayload
  pub empresa_id : Option String

abbrev pub copy_permissao : PermissaoJwt → PermissaoJwt
copy_permissao permissao = record { codigo = permissao.codigo }

unfoldable pub copy_perfil : PerfilJwt → PerfilJwt
copy_perfil perfil = record {
  codigo = perfil.codigo;
  permissoes = Option.map (map copy_permissao) perfil.permissoes;
}

unfoldable pub copy_empresa : EmpresaJwt → EmpresaJwt
unfolding copy_perfil
copy_empresa empresa = record {
  id = empresa.id;
  perfis = Option.map (map copy_perfil) empresa.perfis;
}

-- `validate` returns `userId`, `email` and `empresas`, and nothing else
unfoldable pub to_user : JwtPayload → RequestUser
unfolding copy_empresa
to_user payload = record {
  payload = record {
    email = payload.email;
    user_id = payload.sub;
    sub = none;
    empresas = Option.map (map copy_empresa) payload.empresas;
  };
  empresa_id = none;
}

-- `!!(usuario && usuario.ativo && !usuario.deletedAt)`
abbrev pub is_valid_usuario : Option Usuario → Bool
is_valid_usuario none = false
is_valid_usuario (some u) = u.ativo && is_none u.deleted_at

unfoldable pub is_valid_in : ℕ → Database → Bool
unfolding find_one
is_valid_in user_id db = is_valid_usuario (find_one user_id true db)

-- `none` where the cache raises, too
abbrev pub cached_validity : Request → ℕ → World → Option Bool
cached_validity req user_id w =
    if req.outage.cache_get then none else Cache.get req.now user_id w.validity

abbrev pub cache_validity : Request → ℕ → Bool → World → World
cache_validity req user_id is_valid w = if req.outage.cache_set then w else record w {
  validity = Cache.set user_id is_valid (req.now + user_validity_ttl_ms) w.validity;
}

abbrev pub load_validity : Request → ℕ → Option Bool → World → Bool × World
load_validity req user_id (some is_valid) w = (is_valid, w)
load_validity req user_id none w =
    let is_valid = is_valid_in user_id w.db in (is_valid, cache_validity req user_id is_valid w)

unfoldable pub validity : Request → ℕ → World → Bool × World
unfolding is_valid_in
validity req user_id w = load_validity req user_id (cached_validity req user_id w) w

abbrev pub check_validity : Request → ℕ → Exec Bool
check_validity req user_id w = let (is_valid, w') = validity req user_id w in (ok is_valid, w')

abbrev pub assert_user_still_valid : Request → Option ℕ → Exec (Unit {0})
assert_user_still_valid req none = pure tt
assert_user_still_valid req (some user_id) = do
  is_valid ← check_validity req user_id
  raise_if (not is_valid) (unauthorized usuario_inativo)

unfoldable pub validate : Request → JwtPayload → Exec RequestUser
unfolding validity to_user
validate req payload = do assert_user_still_valid req payload.sub; pure (to_user payload)
