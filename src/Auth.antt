-- ===== src/Auth.antt =====
-- src/auth/application/services/auth.service.ts: login, the pair of tokens, and the rotation of
-- refresh tokens over src/auth/infrastructure/repositories/prisma-refresh-token.repository.ts.
pub mod Login
pub mod Refresh
use api_padrao.Prelude.{
  ℕ, ◌+◌, ◌*◌, String, Text, Bool, true, false, not, ◌&&◌, ◌||◌, Option, none, some, List, [], ◌∷◌,
  any, find, update_where, ltb, ◌==◌, nat_eq, string_eq, if◌then◌else◌,
}
use mathlib.Core.Option
use api_padrao.Payload.{EmpresaAuth, JwtAccessToken, to_empresas_jwt}
use api_padrao.Http.{
  HttpException, unauthorized, forbidden, too_many_requests, unexpected, conta_bloqueada,
  credenciais_invalidas, refresh_invalido, refresh_expirado, atividade_suspeita, usuario_inativo,
  ok, err,
}
use api_padrao.Database.{UsuarioRow, RefreshToken, LoginHistory, Database}
use api_padrao.World.{World, Request, Ports}
use api_padrao.Exec.{Exec, pure, raise, gets, modify, or_raise, raise_if, execute, ◌>>=◌, ◌>>◌}
use api_padrao.Tracker.{is_locked, record_failure, clear_failures}
use api_padrao.Usuarios.Entity.{Usuario}
use api_padrao.Usuarios.Repository.{
  is_none, empresas_of, Credentials, find_by_email_with_credentials,
  find_by_email_with_perfis_and_permissoes,
}

pub record LoginUsuarioDto : Type 0 where
  pub email : Text
  pub senha : String

pub record Tokens : Type 0 where
  pub access_token : String
  pub refresh_token : String

abbrev pub day_ms : ℕ
day_ms = 24 * 60 * 60 * 1000

-- the id and the hash are unique columns
abbrev pub clashes : RefreshToken → RefreshToken → Bool
clashes row t = t.id == row.id || t.token_hash == row.token_hash

-- `prisma.refreshToken.create`
unfoldable pub create_refresh_token : RefreshToken → Exec (Unit {0})
create_refresh_token row w =
    if any (clashes row) w.db.refresh_tokens
    then (err (unexpected 2002), w)
    else (ok tt, record w { db = record w.db { refresh_tokens = row ∷ w.db.refresh_tokens } })

-- `where: { userId, revokedAt: null }`, `data: { revokedAt: new Date() }`
abbrev pub is_active_of : ℕ → RefreshToken → Bool
is_active_of user_id t = t.user_id == user_id && is_none t.revoked_at

abbrev pub revoke_at : ℕ → RefreshToken → RefreshToken
revoke_at now t = record t { revoked_at = some now }

unfoldable pub revoke_active_of : ℕ → ℕ → World → World
revoke_active_of now user_id w = record w {
  db = record w.db {
    refresh_tokens = update_where (is_active_of user_id) (revoke_at now) w.db.refresh_tokens;
  };
}

abbrev pub has_id : String → RefreshToken → Bool
has_id id t = t.id == id

-- `where: { id }`, a single row
unfoldable pub revoke : ℕ → String → World → World
revoke now id w = record w {
  db = record w.db {
    refresh_tokens = update_where (has_id id) (revoke_at now) w.db.refresh_tokens;
  };
}

abbrev pub by_hash : String → RefreshToken → Bool
by_hash h t = t.token_hash == h

abbrev pub by_id : ℕ → UsuarioRow → Bool
by_id id u = u.id == id

unfoldable pub record_history : LoginHistory → World → World
record_history row w = record w { db = record w.db { login_history = row ∷ w.db.login_history } }

module _ (ports : Ports) where
  abbrev pub expires_at : ℕ → ℕ
  expires_at now = now + Option.get_or ports.refresh_expires_days 2 * day_ms

  abbrev pub new_row : Request → ℕ → RefreshToken
  new_row req user_id = record {
    id = req.row_id;
    token_hash = ports.hash_token req.raw_token;
    user_id = user_id;
    expires_at = expires_at req.now;
    revoked_at = none;
  }

  abbrev pub tokens_for : Request → ℕ → Text → Option (List EmpresaAuth) → Tokens
  tokens_for req user_id email empresas = record {
    access_token =
        ports.sign (record { sub = user_id; email = email; empresas = to_empresas_jwt empresas });
    refresh_token = req.raw_token;
  }

  unfoldable pub generate_tokens : Request → ℕ → Text → Option (List EmpresaAuth) → Exec Tokens
  unfolding create_refresh_token
  generate_tokens req user_id email empresas = do
    create_refresh_token (new_row req user_id)
    pure (tokens_for req user_id email empresas)

  -- the four tests on the credentials, in the order of the source
  unfoldable pub accepted : Option Credentials → String → Option Credentials
  accepted none senha = none
  accepted (some c) senha =
      let hash = Option.get_or c.senha "" in
      if hash == "" || senha == "" || not (ports.compare senha hash) then none else some c

  abbrev pub login_failed : Request → LoginUsuarioDto → Exec Tokens
  login_failed req dto = do record_failure req dto.email; raise (unauthorized credenciais_invalidas)

  abbrev pub history_row : Request → ℕ → LoginHistory
  history_row req id = record { user_id = id; ip = req.ip; user_agent = req.user_agent }

  abbrev pub login_succeeded : Request → LoginUsuarioDto → Credentials → Exec Tokens
  login_succeeded req dto credentials = do
    clear_failures req dto.email
    modify (record_history (history_row req credentials.id))
    found ← find_by_email_with_perfis_and_permissoes req dto.email
    user ← or_raise found (unauthorized credenciais_invalidas)
    generate_tokens req user.id user.email (some user.empresas)

  abbrev pub login_with : Request → LoginUsuarioDto → Option Credentials → Exec Tokens
  login_with req dto none = login_failed req dto
  login_with req dto (some c) = login_succeeded req dto c

  unfoldable pub login : Request → LoginUsuarioDto → Exec Tokens
  unfolding accepted generate_tokens record_history
  login req dto = do
    locked ← is_locked req dto.email
    raise_if locked (too_many_requests conta_bloqueada)
    credentials ← gets (λ w. find_by_email_with_credentials dto.email w.db)
    login_with req dto (accepted credentials dto.senha)

  -- a token that was revoked already: its user's other tokens are revoked, and the call raises
  abbrev pub reuse_detected : Request → RefreshToken → Exec Tokens
  reuse_detected req stored = do
    modify (revoke_active_of req.now stored.user_id)
    raise (forbidden atividade_suspeita)

  abbrev pub rotate : Request → RefreshToken → UsuarioRow → Exec Tokens
  rotate req stored user = do
    modify (revoke req.now stored.id)
    create_refresh_token (new_row req stored.user_id)
    vinculos ← gets (λ w. w.db.vinculos)
    pure (tokens_for req stored.user_id user.email (some (empresas_of user.id vinculos)))

  abbrev pub refresh_owned : Request → RefreshToken → UsuarioRow → Exec Tokens
  refresh_owned req stored user =
      if not user.ativo || not (is_none user.deleted_at)
      then raise (unauthorized usuario_inativo)
      else rotate req stored user

  -- the `user` that the query includes: the foreign key gives every token one
  abbrev pub with_owner : Request → RefreshToken → Exec Tokens
  with_owner req stored = do
    owner ← gets (λ w. find (by_id stored.user_id) w.db.usuarios)
    user ← or_raise owner (unexpected 2025)
    refresh_owned req stored user

  abbrev pub refresh_stored : Request → RefreshToken → Exec Tokens
  refresh_stored req stored =
      if not (is_none stored.revoked_at)
      then reuse_detected req stored
      else if ltb stored.expires_at req.now
      then raise (unauthorized refresh_expirado)
      else with_owner req stored

  -- the callback that runs inside the transaction
  unfoldable pub refresh_work : Request → String → Exec Tokens
  unfolding create_refresh_token revoke revoke_active_of
  refresh_work req refresh_token = do
    found ← gets (λ w. find (by_hash (ports.hash_token refresh_token)) w.db.refresh_tokens)
    stored ← or_raise found (unauthorized refresh_invalido)
    refresh_stored req stored

  unfoldable pub refresh_tokens : Request → String → Exec Tokens
  unfolding execute refresh_work
  refresh_tokens req refresh_token = execute (refresh_work req refresh_token)
