-- ===== src/Usuarios/Service.antt =====
-- src/usuarios/application/services/usuarios.service.ts.
pub mod Update
pub mod Outcomes
use api_padrao.Prelude.{
  ℕ, ◌+◌, String, Text, Bool, true, false, not, ◌&&◌, ◌||◌, Option, none, some, List, [], ◌∷◌, any,
  find, count_where, update_where, ◌==◌, nat_eq, string_eq, text_eq, if◌then◌else◌,
}
use Prim.Native.String
use mathlib.Core.Option
use api_padrao.Payload.{JwtPayload}
use api_padrao.Http.{
  forbidden, not_found, conflict, unexpected, usuario_nao_encontrado, email_ja_cadastrado,
  email_em_uso, nao_esta_deletado, ja_esta_deletado, modificado_por_outra, sem_permissao_de_acessar,
  sem_permissao_de_atualizar, sem_permissao_de_restaurar, sem_permissao_de_deletar, ok, err,
}
use api_padrao.Database.{UsuarioRow, Database}
use api_padrao.World.{World, Request, Ports, Mail, text, str, moment}
use api_padrao.Exec.{Exec, pure, raise, gets, modify, or_raise, raise_if, execute, ◌>>=◌, ◌>>◌}
use api_padrao.Auth.{revoke_active_of, by_id}
use api_padrao.Recovery.{send}
use api_padrao.Usuarios.Entity.{Usuario}
use api_padrao.Usuarios.Repository.{
  is_none, map_to_entity, find_one, find_by_email, invalidate_user_cache,
}
use api_padrao.Usuarios.Authorization.{
  can_access_usuario, can_update_usuario, can_restore_usuario, is_admin_in,
}
use api_padrao.Usuarios.Transaction.{Intent, nothing, restore, soft_delete, Plan, update_work}

pub record CreateUsuarioDto : Type 0 where
  pub email : Text
  pub senha : Option String

pub record UpdateUsuarioDto : Type 0 where
  pub email : Option Text
  pub senha : Option String
  pub ativo : Option Bool

-- an empty text is as good as none: `if (dto.senha)`
abbrev pub given : Option String → Option String
given none = none
given (some s) = if s == "" then none else some s

-- `prisma.usuario.create`: the id is the next of the sequence, the e-mail a unique column
unfoldable pub create_row : UsuarioRow → Exec (Unit {0})
create_row row w =
    if any (λ (u : UsuarioRow). u.id == row.id || u.email == row.email) w.db.usuarios
    then (err (unexpected 2002), w)
    else (ok tt, record w { db = record w.db { usuarios = row ∷ w.db.usuarios } })

unfoldable pub find_one_for : ℕ → JwtPayload → Bool → Exec Usuario
find_one_for id logado include_deleted = do
  found ← gets (λ w. find_one id include_deleted w.db)
  usuario ← or_raise found (not_found usuario_nao_encontrado)
  raise_if (not (can_access_usuario usuario.id logado)) (forbidden sem_permissao_de_acessar)
  pure usuario

module _ (ports : Ports) where
  abbrev pub new_usuario : Request → ℕ → CreateUsuarioDto → UsuarioRow
  new_usuario req id dto = record {
    id = id;
    email = dto.email;
    senha = Option.map ports.hash_password (given dto.senha);
    created_at = req.now;
    updated_at = req.now;
    deleted_at = none;
    ativo = true;
  }

  abbrev pub welcome_mail : UsuarioRow → Mail
  welcome_mail u = record {
    template = "usuarios.welcome";
    to = u.email;
    variables =
        ("nome", text u.email)
        ∷ ("email", text u.email)
        ∷ (
          "link",
          str (
              String.◌++◌ (Option.get_or ports.app_login_url "http://localhost:3000")
                "/auth/forgot-password"),
        )
        ∷ [];
  }

  -- `id` is the value that the sequence of the table gives
  unfoldable pub create : Request → ℕ → CreateUsuarioDto → Exec Usuario
  unfolding create_row send
  create req id dto = do
    existente ← gets (λ w. find_by_email dto.email w.db)
    raise_if (not (is_none existente)) (conflict email_ja_cadastrado)
    create_row (new_usuario req id dto)
    send ports (welcome_mail (new_usuario req id dto))
    pure (map_to_entity (new_usuario req id dto))

  abbrev pub belongs_to_other : ℕ → Option Usuario → Bool
  belongs_to_other id none = false
  belongs_to_other id (some u) = not (u.id == id)

  -- `some email` where the e-mail changes
  abbrev pub plan_email : ℕ → Usuario → Option Text → Exec (Option Text)
  plan_email id pre none = pure none
  plan_email id pre (some email) = if email == pre.email then pure none else do
    existente ← gets (λ w. find_by_email email w.db)
    raise_if (belongs_to_other id existente) (conflict email_em_uso)
    pure (some email)

  abbrev pub plan_intent : ℕ → JwtPayload → Option String → Option Bool → Exec Intent
  plan_intent id logado empresa_id none = pure nothing
  plan_intent id logado empresa_id (some true) = do
    raise_if (not (can_restore_usuario id logado)) (forbidden sem_permissao_de_restaurar)
    pure restore
  plan_intent id logado empresa_id (some false) = do
    raise_if (not (is_admin_in empresa_id logado)) (forbidden sem_permissao_de_deletar)
    pure soft_delete

  abbrev pub with_intent : UpdateUsuarioDto → Option Text → Intent → Exec Plan
  with_intent dto new_email intent = pure (record {
    intent = intent;
    new_email = new_email;
    new_senha = Option.map ports.hash_password (given dto.senha);
  })

  abbrev pub with_email :
      UpdateUsuarioDto → JwtPayload → Option String → Usuario → Option Text → Exec Plan
  with_email dto logado empresa_id pre new_email = do
    intent ← plan_intent pre.id logado empresa_id dto.ativo
    with_intent dto new_email intent

  abbrev pub with_permission :
      ℕ → UpdateUsuarioDto → JwtPayload → Option String → Usuario → Exec Plan
  with_permission id dto logado empresa_id pre = do
    new_email ← plan_email id pre dto.email
    with_email dto logado empresa_id pre new_email

  -- what runs before the transaction: existence, permission, e-mail, hash, intent
  unfoldable pub plan_update : ℕ → UpdateUsuarioDto → JwtPayload → Option String → Exec Plan
  plan_update id dto logado empresa_id = do
    found ← gets (λ w. find_one id true w.db)
    pre ← or_raise found (not_found usuario_nao_encontrado)
    raise_if (not (can_update_usuario pre.id logado)) (forbidden sem_permissao_de_atualizar)
    with_permission id dto logado empresa_id pre

  abbrev pub disabled_mail : Request → Usuario → Mail
  disabled_mail req u = record {
    template = "usuarios.account_disabled";
    to = u.email;
    variables = ("nome", text u.email) ∷ ("dataHora", moment req.now) ∷ [];
  }

  abbrev pub invalidate_if : Bool → Request → ℕ → Exec (Unit {0})
  invalidate_if c req id = if c then modify (invalidate_user_cache req id) else pure tt

  abbrev pub notify_disabled : Request → Usuario → Bool → Exec (Unit {0})
  notify_disabled req u disabled_now =
      if disabled_now then send ports (disabled_mail req u) else pure tt

  -- what follows the transaction
  abbrev pub finish : Request → ℕ → Plan → Usuario × Bool → Exec Usuario
  finish req id plan done = do
    invalidate_if (not (is_none plan.new_senha) || done.1 || not (is_none plan.new_email)) req id
    notify_disabled req done.0 done.1
    pure done.0

  unfoldable pub apply_plan : Request → ℕ → Plan → Exec Usuario
  unfolding execute update_work invalidate_user_cache send
  apply_plan req id plan = do done ← execute (update_work req id plan); finish req id plan done

  unfoldable pub update : Request → ℕ → UpdateUsuarioDto → JwtPayload → Option String → Exec Usuario
  unfolding plan_update apply_plan
  update req id dto logado empresa_id = do
    plan ← plan_update id dto logado empresa_id
    apply_plan req id plan
