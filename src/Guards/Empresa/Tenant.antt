-- ===== src/Guards/Empresa/Tenant.antt =====
-- Which tenant a request gets.
use api_padrao.Prelude.{
  String, ◌≡◌, false, none, some, arith, ◌==◌, string_eq, eq_iff, inl, inr, Bool-cases,
  Option-cases,
}
use api_padrao.Payload.{JwtPayload}
use api_padrao.Payload.Authority.{is_admin}
use api_padrao.Http.{ok}
use api_padrao.World.{World, Request}
use api_padrao.Guards.Strategy.{RequestUser, to_user, validate}
use api_padrao.Guards.Empresa.{RequestContext, Headers, request_id_of, intercept}

-- the user that `validate` hands over
validate-user :
    (req : Request) (payload : JwtPayload) (w : World) {user : RequestUser} {w' : World}
    → validate req payload w ≡ (ok user, w')
    → user ≡ to_user payload
unfolding validate
validate-user req payload w e = ground arith

-- For every user that `validate` hands over, the interceptor takes any tenant that the header names
-- as the tenant of the request, whatever companies the token holds, and sets no `usuarioId`.
pub header_accepted :
    (req : Request) (payload : JwtPayload) (w : World) {user : RequestUser} {w' : World}
    (headers : Headers) (uuid tenant : String)
    → validate req payload w ≡ (ok user, w')
    → headers.x_empresa_id ≡ some tenant
    → (tenant == "") ≡ false
    → intercept (some user) headers uuid
      ≡ ok (record {
        empresa_id = some tenant;
        usuario_id = none;
        request_id = some (request_id_of headers uuid);
      })
unfolding intercept to_user
header_accepted req payload w headers uuid tenant e header given =
    rw (validate-user req payload w e, header) (ground (arith, given))

-- A request that passes the interceptor as a user with a company of its own, who is no
-- administrator, gets that company as its tenant.
pub tenant_isolated :
    (user : RequestUser) (headers : Headers) (uuid : String) (home : String)
    {context : RequestContext}
    → user.empresa_id ≡ some home
    → (home == "") ≡ false
    → is_admin user.payload ≡ false
    → intercept (some user) headers uuid ≡ ok context
    → context.empresa_id ≡ some home
unfolding intercept
tenant_isolated user headers uuid home own given plain e =
    elim (Option-cases headers.x_empresa_id) [
      | inl no_header ↦ ground (arith, own, given, plain)
      | inr (tenant, header) ↦ elim (Bool-cases (tenant == "")) [
        | inl empty ↦ ground (arith, own, given, plain)
        | inr named ↦ elim (Bool-cases (tenant == home)) [
          | inl same ↦ let equal = (eq_iff tenant home).0 same in ground (arith, own, given, plain)
          | inr other ↦ absurd (ground (arith, own, given, plain))
        ]
      ]
    ]
