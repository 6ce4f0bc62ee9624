-- ===== src/Sessions/Handlers.antt =====
-- Each handler, by the parts that it is composed of.
use api_padrao.Prelude.{
  ℕ, String, Text, refl, not, ◌||◌, Option, none, some, List, arith, find, ltb, nat_eq, text_eq,
}
use api_padrao.Payload.{EmpresaAuth}
use api_padrao.Http.{
  unauthorized, forbidden, too_many_requests, unexpected, conta_bloqueada, credenciais_invalidas,
  refresh_invalido, refresh_expirado, atividade_suspeita, usuario_inativo,
}
use api_padrao.Database.{UsuarioRow, RefreshToken, LoginHistory}
use api_padrao.World.{Request, Ports}
use api_padrao.Exec.{modify}
use api_padrao.Tracker.{is_locked_now, record_failure, clear_failures}
use api_padrao.Tracker.Frame.{after_failure-SameTables, after_success-SameTables}
use api_padrao.Usuarios.Repository.{
  is_none, empresas_of, find_by_email_with_credentials, Credentials, found_profile,
  find_by_email_with_perfis_and_permissoes,
}
use api_padrao.Auth.{
  LoginUsuarioDto, accepted, by_hash, tokens_for, history_row, new_row, by_id, is_active_of,
  revoke_active_of, has_id, revoke, generate_tokens, record_history, login_succeeded, login_with,
  login, rotate, refresh_owned, with_owner, refresh_stored, refresh_work, refresh_tokens,
}
use api_padrao.Sessions.Table.{revoked, unchanged}
use api_padrao.Sessions.Keeps.{
  Keeps, untouched, pure-Keeps, raise-Keeps, gets-Keeps, raise_if-Keeps, or_raise-Keeps, if-Keeps,
  bind-Keeps, execute-Keeps, create-Keeps,
}

profile-Keeps :
    (req : Request) (email : Text) → Keeps (find_by_email_with_perfis_and_permissoes req email)
unfolding found_profile
profile-Keeps req email =
    untouched (find_by_email_with_perfis_and_permissoes req email) (λ w. ground arith)

pub revoke_active-Keeps : (now user_id : ℕ) → Keeps (modify (revoke_active_of now user_id))
unfolding revoke_active_of
revoke_active-Keeps now user_id = record {
  keeps = λ w. revoked (is_active_of user_id) now (unchanged refl) refl;
}

revoke-Keeps : (now : ℕ) (id : String) → Keeps (modify (revoke now id))
unfolding revoke
revoke-Keeps now id = record { keeps = λ w. revoked (has_id id) now (unchanged refl) refl }

history-Keeps : (row : LoginHistory) → Keeps (modify (record_history row))
unfolding record_history
history-Keeps row = untouched (modify (record_history row)) (λ w. refl)

failure-Keeps : (req : Request) (email : Text) → Keeps (record_failure req email)
failure-Keeps req email =
    untouched (record_failure req email)
      (λ w. (after_failure-SameTables req email w).refresh_tokens)

success-Keeps : (req : Request) (email : Text) → Keeps (clear_failures req email)
success-Keeps req email =
    untouched (clear_failures req email)
      (λ w. (after_success-SameTables req email w).refresh_tokens)

module _ (ports : Ports) where
  generate-Keeps :
      (req : Request) (id : ℕ) (email : Text) (empresas : Option (List EmpresaAuth))
      → Keeps (generate_tokens ports req id email empresas)
  unfolding generate_tokens
  generate-Keeps req id email empresas =
      bind-Keeps (create-Keeps (new_row ports req id))
        (λ a. pure-Keeps (tokens_for ports req id email empresas))

  succeeded-Keeps :
      (req : Request) (dto : LoginUsuarioDto) (c : Credentials)
      → Keeps (login_succeeded ports req dto c)
  succeeded-Keeps req dto c = bind-Keeps (success-Keeps req dto.email) (λ a.
      bind-Keeps (history-Keeps (history_row ports req c.id)) (λ b.
        bind-Keeps (profile-Keeps req dto.email) (λ found.
          bind-Keeps (or_raise-Keeps found (unauthorized credenciais_invalidas))
            (λ user. generate-Keeps req user.id user.email (some user.empresas)))))

  login_with-Keeps :
      (req : Request) (dto : LoginUsuarioDto) (o : Option Credentials)
      → Keeps (login_with ports req dto o)
  login_with-Keeps req dto none =
      bind-Keeps (failure-Keeps req dto.email)
        (λ a. raise-Keeps (unauthorized credenciais_invalidas))
  login_with-Keeps req dto (some c) = succeeded-Keeps req dto c

  pub login-Keeps : (req : Request) (dto : LoginUsuarioDto) → Keeps (login ports req dto)
  unfolding login
  login-Keeps req dto = bind-Keeps (gets-Keeps (is_locked_now req dto.email)) (λ locked.
      bind-Keeps (raise_if-Keeps locked (too_many_requests conta_bloqueada)) (λ a.
        bind-Keeps (gets-Keeps (λ w. find_by_email_with_credentials dto.email w.db))
          (λ c. login_with-Keeps req dto (accepted ports c dto.senha))))

  rotate-Keeps :
      (req : Request) (stored : RefreshToken) (user : UsuarioRow)
      → Keeps (rotate ports req stored user)
  rotate-Keeps req stored user = bind-Keeps (revoke-Keeps req.now stored.id) (λ a.
      bind-Keeps (create-Keeps (new_row ports req stored.user_id)) (λ b.
        bind-Keeps (gets-Keeps (λ w. w.db.vinculos)) (λ vinculos.
          pure-Keeps (
            tokens_for ports req stored.user_id user.email (some (empresas_of user.id vinculos))))))

  owned-Keeps :
      (req : Request) (stored : RefreshToken) (user : UsuarioRow)
      → Keeps (refresh_owned ports req stored user)
  owned-Keeps req stored user =
      if-Keeps (not user.ativo || not (is_none user.deleted_at))
        (raise-Keeps (unauthorized usuario_inativo)) (rotate-Keeps req stored user)

  owner-Keeps : (req : Request) (stored : RefreshToken) → Keeps (with_owner ports req stored)
  owner-Keeps req stored =
      bind-Keeps (gets-Keeps (λ w. find (by_id stored.user_id) w.db.usuarios)) (λ owner.
        bind-Keeps (or_raise-Keeps owner (unexpected 2025)) (λ user. owned-Keeps req stored user))

  stored-Keeps : (req : Request) (stored : RefreshToken) → Keeps (refresh_stored ports req stored)
  stored-Keeps req stored =
      if-Keeps (not (is_none stored.revoked_at))
        (bind-Keeps (revoke_active-Keeps req.now stored.user_id)
          (λ a. raise-Keeps (forbidden atividade_suspeita)))
        (if-Keeps (ltb stored.expires_at req.now) (raise-Keeps (unauthorized refresh_expirado))
          (owner-Keeps req stored))

  pub refresh-Keeps : (req : Request) (token : String) → Keeps (refresh_tokens ports req token)
  unfolding refresh_tokens refresh_work
  refresh-Keeps req token = execute-Keeps (
      bind-Keeps (gets-Keeps (λ w. find (by_hash (ports.hash_token token)) w.db.refresh_tokens))
        (λ found.
          bind-Keeps (or_raise-Keeps found (unauthorized refresh_invalido))
            (λ stored. stored-Keeps req stored)))
