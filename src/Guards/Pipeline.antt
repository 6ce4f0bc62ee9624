-- ===== src/Guards/Pipeline.antt =====
-- The global guards in the order in which src/app.module.ts registers them, and the interceptor
-- after them: src/auth/application/guards/auth.guard.ts, then the guard of permissions.
pub mod Sound
use mathlib.Core.Option
use api_padrao.Prelude.{String, Text, Bool, true, false, Option, none, some}
use api_padrao.Payload.{EmpresaJwt, JwtPayload}
use api_padrao.Http.{Result, HttpException, unauthorized, sem_token, ok, err}
use api_padrao.World.{World, Request}
use api_padrao.Exec.{Exec, pure, raise, ◌>>=◌, ◌>>◌}
use api_padrao.Guards.Strategy.{RequestUser, validate}
use api_padrao.Guards.Permissao.{Permissoes, Incoming, can_activate}
use api_padrao.Guards.Empresa.{RequestContext, Headers, intercept}
use api_padrao.Throttling.Guard.{get_tracker}

-- the metadata of the decorators of a route
pub record Route : Type 0 where
  pub is_public : Bool
  pub permissoes : Option Permissoes

-- `token` is the payload that passport-jwt has verified, if there is one
pub record HttpCall : Type 0 where
  pub token : Option JwtPayload
  pub headers : Headers
  pub ip : Option String
  pub uuid : String

pub record Admitted : Type 0 where
  pub tracker : Text
  pub user : Option RequestUser
  pub empresa_context : Option EmpresaJwt
  pub context : RequestContext

abbrev pub with_token : Request → Option JwtPayload → Exec (Option RequestUser)
with_token req none = raise (unauthorized sem_token)
with_token req (some payload) = do user ← validate req payload; pure (some user)

-- `request.user` and `request.usuarioLogado` after the guard
abbrev pub auth_guard : Request → Route → HttpCall → Exec (Option RequestUser)
auth_guard req route call = elim route.is_public [
  | true ↦ pure none
  | false ↦ with_token req call.token
]

abbrev pub from_result : {A : Type 0} → Result A → Exec A
from_result r w = (r, w)

abbrev pub permissao_guard : Route → HttpCall → Option RequestUser → Exec (Option EmpresaJwt)
permissao_guard route call user = do
  let (allowed, empresa_context) = can_activate route.permissoes (record {
    usuario_logado = Option.map (λ (u : RequestUser). u.payload) user;
    x_empresa_id = call.headers.x_empresa_id;
  })
  from_result allowed
  pure empresa_context

-- the guard of permissions and the interceptor, after `AuthGuard`
unfoldable pub enter : Route → HttpCall → Option RequestUser → Exec Admitted
unfolding can_activate intercept get_tracker
enter route call user = do
  empresa_context ← permissao_guard route call user
  context ← from_result (intercept user call.headers call.uuid)
  pure (record {
    tracker = get_tracker none call.ip;
    user = user;
    empresa_context = empresa_context;
    context = context;
  })

-- the tracker is computed first, before any guard has set `request.user`
unfoldable pub admit : Request → Route → HttpCall → Exec Admitted
unfolding validate enter
admit req route call = do user ← auth_guard req route call; enter route call user
