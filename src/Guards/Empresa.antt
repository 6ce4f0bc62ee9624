-- ===== src/Guards/Empresa.antt =====
-- src/shared/infrastructure/interceptors/empresa.interceptor.ts: the context of a request, with its
-- tenant, after the check of the header `x-empresa-id` (SEC-005).
pub mod Tenant
use mathlib.Core.Option
use api_padrao.Prelude.{
  ℕ, String, Bool, true, false, not, ◌&&◌, ◌||◌, Option, none, some, ◌==◌, string_eq, if◌then◌else◌,
}
use api_padrao.Payload.Authority.{is_admin}
use api_padrao.Http.{Result, forbidden, tenant_divergente, ok, err}
use api_padrao.Guards.Strategy.{RequestUser}

pub record RequestContext : Type 0 where
  pub empresa_id : Option String
  pub usuario_id : Option ℕ
  pub request_id : Option String

pub record Headers : Type 0 where
  pub x_request_id : Option String
  pub x_empresa_id : Option String

-- a text that JavaScript takes as true
abbrev pub is_given : Option String → Bool
is_given none = false
is_given (some s) = not (s == "")

-- `a || b`
abbrev pub or_else : Option String → Option String → Option String
or_else a b = if is_given a then a else b

-- `headerEmpresaId && user.empresaId && !isGlobalAdmin`, and they differ
unfoldable pub is_blocked : RequestUser → Option String → Bool
is_blocked user header =
    (is_given header && is_given user.empresa_id && not (is_admin user.payload))
    && not (Option.get_or header "" == Option.get_or user.empresa_id "")

-- `if (empresaId) contextData.empresaId = empresaId`
abbrev pub tenant_of : RequestUser → Option String → Option String
tenant_of user header =
    let empresa_id = or_else header user.empresa_id in
    if is_given empresa_id then empresa_id else none

abbrev pub context_for : String → Option RequestUser → Option String → Result RequestContext
context_for request_id none header =
    ok (record { empresa_id = none; usuario_id = none; request_id = some request_id })
context_for request_id (some user) header =
    if is_blocked user header
    then err (forbidden tenant_divergente)
    else ok (record {
      empresa_id = tenant_of user header;
      usuario_id = user.payload.sub;
      request_id = some request_id;
    })

-- `(request.headers['x-request-id'] as string) || uuidv4()`
abbrev pub request_id_of : Headers → String → String
request_id_of headers uuid = Option.get_or (or_else headers.x_request_id (some uuid)) uuid

-- the context that the handler runs in; `uuid` is what uuidv4() gives
unfoldable pub intercept : Option RequestUser → Headers → String → Result RequestContext
unfolding is_blocked
intercept user headers uuid = context_for (request_id_of headers uuid) user headers.x_empresa_id
