-- ===== src/Usuarios/Repository.antt =====
-- The reads of src/usuarios/infrastructure/repositories/prisma-usuario.repository.ts that the
-- services use. The extended client adds `deletedAt: null` to its filters
-- (src/prisma/prisma-extension.ts); the plain one does not.
use api_padrao.Prelude.{
  ℕ, ◌+◌, String, Text, Bool, true, false, ◌&&◌, ◌||◌, Option, none, some, List, [], ◌∷◌, find,
  ◌==◌, nat_eq, text_eq, if◌then◌else◌,
}
use mathlib.Core.Option
use api_padrao.Payload.{EmpresaAuth}
use api_padrao.Database.{UsuarioRow, Vinculo, Database}
use api_padrao.Cache
use api_padrao.World.{World, Request}
use api_padrao.Exec.{Exec}
use api_padrao.Http.{ok}
use api_padrao.Usuarios.Entity.{Usuario}

abbrev pub is_none : {A : Type 0} → Option A → Bool
is_none none = true
is_none (some a) = false

-- the joined companies of a user, with their profiles
unfoldable pub empresas_of : ℕ → List Vinculo → List EmpresaAuth
empresas_of id [] = []
empresas_of id (v ∷ vs) =
    if v.usuario_id == id
    then record { empresa_id = v.empresa_id; perfis = some v.perfis } ∷ empresas_of id vs
    else empresas_of id vs

-- a selection with no `senha` and no `empresas`
abbrev pub map_to_entity : UsuarioRow → Usuario
map_to_entity row = record {
  id = row.id;
  email = row.email;
  senha = none;
  empresas = [];
  created_at = row.created_at;
  updated_at = row.updated_at;
  deleted_at = row.deleted_at;
  ativo = row.ativo;
}

unfoldable pub find_one : ℕ → Bool → Database → Option Usuario
find_one id include_deleted db =
    Option.map map_to_entity (
      find (λ (u : UsuarioRow). u.id == id && (include_deleted || is_none u.deleted_at))
        db.usuarios)

abbrev pub has_email : Text → UsuarioRow → Bool
has_email email u = u.email == email && is_none u.deleted_at

unfoldable pub find_by_email : Text → Database → Option Usuario
find_by_email email db = Option.map map_to_entity (find (has_email email) db.usuarios)

pub record Credentials : Type 0 where
  pub id : ℕ
  pub email : Text
  pub senha : Option String
  pub ativo : Bool
  pub deleted_at : Option ℕ

abbrev pub to_credentials : UsuarioRow → Credentials
to_credentials row = record {
  id = row.id;
  email = row.email;
  senha = row.senha;
  ativo = row.ativo;
  deleted_at = row.deleted_at;
}

unfoldable pub find_by_email_with_credentials : Text → Database → Option Credentials
find_by_email_with_credentials email db =
    Option.map to_credentials (find (has_email email) db.usuarios)

abbrev pub cache_ttl_ms : ℕ
cache_ttl_ms = 60000

abbrev pub with_empresas : Database → Usuario → Usuario
with_empresas db u = record u { empresas = empresas_of u.id db.vinculos }

abbrev pub cache_profile : Request → Usuario → World → World
cache_profile req u w =
    if req.outage.cache_set
    then w
    else record w { profiles = Cache.set u.id u (req.now + cache_ttl_ms) w.profiles }

-- a cached entity is returned as it was stored; a cache that raises counts as a miss
abbrev pub profile_hit : Request → ℕ → World → Option Usuario
profile_hit req id w = if req.outage.cache_get then none else Cache.get req.now id w.profiles

abbrev pub load_profile : Request → Usuario → Option Usuario → World → Option Usuario × World
load_profile req u (some cached) w = (some cached, w)
load_profile req u none w =
    let loaded = with_empresas w.db u in (some loaded, cache_profile req loaded w)

abbrev pub with_profile : Request → Option Usuario → World → Option Usuario × World
with_profile req none w = (none, w)
with_profile req (some u) w = load_profile req u (profile_hit req u.id w) w

unfoldable pub found_profile : Request → Text → World → Option Usuario × World
unfolding find_by_email empresas_of
found_profile req email w = with_profile req (find_by_email email w.db) w

abbrev pub find_by_email_with_perfis_and_permissoes : Request → Text → Exec (Option Usuario)
find_by_email_with_perfis_and_permissoes req email w =
    let (found, w') = found_profile req email w in (ok found, w')

unfoldable pub invalidate_user_cache : Request → ℕ → World → World
invalidate_user_cache req id w =
    if req.outage.cache_del then w else record w { profiles = Cache.del id w.profiles }
