-- ===== src/Payload/Authority.antt =====
-- The tests on the roles and permissions of a decoded token, shared by
-- src/auth/infrastructure/services/default-authorization.service.ts and
-- src/usuarios/application/services/usuario-authorization.service.ts.
use api_padrao.Prelude.{String, Bool, false, Option, none, some, List, any, ◌==◌, string_eq, nat_eq}
use api_padrao.Payload.{PerfilJwt, EmpresaJwt, JwtPayload}

-- `list?.some(p)`, where a missing list counts as false
abbrev pub some? : {A : Type 0} → (A → Bool) → Option (List A) → Bool
some? p none = false
some? p (some xs) = any p xs

abbrev pub admin_codigo : String
admin_codigo = "ADMIN"

-- `e.perfis?.some((p) => p.codigo === Roles.ADMIN)`
unfoldable pub has_admin : EmpresaJwt → Bool
has_admin e = some? (λ (p : PerfilJwt). p.codigo == admin_codigo) e.perfis

unfoldable pub is_admin : JwtPayload → Bool
unfolding has_admin
is_admin usuario = some? has_admin usuario.empresas
