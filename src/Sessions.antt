-- ===== src/Sessions.antt =====
-- Requests in any order on one world, and what becomes of the table of refresh tokens:
-- src/auth/application/services/auth.service.ts, password-recovery.service.ts, and
-- src/usuarios/application/services/usuarios.service.ts.
pub mod Table
pub mod Keeps
pub mod Handlers
pub mod Writers
pub mod SingleUse
use api_padrao.Prelude.{ℕ, String, Text, Option, List, [], ◌∷◌}
use api_padrao.Payload.{JwtPayload}
use api_padrao.World.{World, Request, Ports}
use api_padrao.Auth.{LoginUsuarioDto, login, refresh_tokens}
use api_padrao.Recovery.{forgot_password, reset_password}
use api_padrao.Usuarios.Service.{UpdateUsuarioDto, update}

-- a request to one of the handlers that write users or tokens
pub data Action : Type 0 where
  log_in : Request → LoginUsuarioDto → Action
  refresh : Request → String → Action
  ask_reset : Request → Text → Action
  reset : Request → String → String → Action
  patch : Request → ℕ → UpdateUsuarioDto → JwtPayload → Option String → Action

module _ (ports : Ports) where
  unfoldable pub act : Action → World → World
  act (log_in req dto) w = (login ports req dto w).1
  act (refresh req token) w = (refresh_tokens ports req token w).1
  act (ask_reset req email) w = (forgot_password ports req email w).1
  act (reset req token nova_senha) w = (reset_password ports req token nova_senha w).1
  act (patch req id dto logado empresa_id) w = (update ports req id dto logado empresa_id w).1

  unfoldable pub act_all : List Action → World → World
  unfolding act
  act_all [] w = w
  act_all (a ∷ more) w = act_all more (act a w)
