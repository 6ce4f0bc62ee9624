-- ===== src/Usuarios/Authorization.antt =====
-- src/usuarios/application/services/usuario-authorization.service.ts.
use api_padrao.Prelude.{
  ℕ, String, Bool, false, ◌||◌, Option, none, some, ◌==◌, nat_eq, string_eq, if◌then◌else◌, true,
}
use api_padrao.Payload.{PermissaoJwt, PerfilJwt, EmpresaJwt, JwtPayload}
use api_padrao.Payload.Authority.{some?, has_admin, is_admin}

-- `usuarioId === x`, where `x` may be undefined
abbrev pub is_id : ℕ → Option ℕ → Bool
is_id id none = false
is_id id (some x) = id == x

unfoldable pub is_owner : ℕ → JwtPayload → Bool
is_owner id logado = is_id id logado.sub || is_id id logado.user_id

unfoldable pub can_access_usuario : ℕ → JwtPayload → Bool
unfolding is_owner is_admin
can_access_usuario id logado = is_owner id logado || is_admin logado

unfoldable pub can_update_usuario : ℕ → JwtPayload → Bool
unfolding is_owner is_admin
can_update_usuario id logado = is_owner id logado || is_admin logado

unfoldable pub can_delete_usuario : ℕ → JwtPayload → Bool
unfolding is_owner is_admin
can_delete_usuario id logado = is_owner id logado || is_admin logado

abbrev pub restore_codigo : String
restore_codigo = "RESTORE_USUARIO"

abbrev pub grants : String → EmpresaJwt → Bool
grants codigo e =
    some? (λ (p : PerfilJwt). some? (λ (perm : PermissaoJwt). perm.codigo == codigo) p.permissoes)
      e.perfis

unfoldable pub can_restore_usuario : ℕ → JwtPayload → Bool
unfolding is_admin
can_restore_usuario id logado =
    if is_admin logado then true else some? (grants restore_codigo) logado.empresas

-- `empresaId && empresas?.some((e) => e.id === empresaId && e.perfis?.some(ADMIN))`
unfoldable pub is_admin_in : Option String → JwtPayload → Bool
unfolding has_admin
is_admin_in none logado = false
is_admin_in (some empresa_id) logado =
    if empresa_id == ""
    then false
    else some? (λ (e : EmpresaJwt). if e.id == empresa_id then has_admin e else false)
        logado.empresas
