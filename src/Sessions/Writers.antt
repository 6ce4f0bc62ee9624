-- ===== src/Sessions/Writers.antt =====
-- Password recovery and PATCH of a user, by the parts that they are composed of.
use mathlib.Core.Option
use api_padrao.Prelude.{
  ℕ, String, Text, refl, Bool, true, false, not, ◌&&◌, ◌||◌, Option, none, some, arith, find, ◌==◌,
  nat_eq, text_eq,
}
use api_padrao.Payload.{JwtPayload}
use api_padrao.Http.{
  unauthorized, not_found, conflict, forbidden, token_de_reset_invalido, usuario_nao_encontrado,
  email_em_uso, nao_esta_deletado, ja_esta_deletado, sem_permissao_de_atualizar,
  sem_permissao_de_restaurar, sem_permissao_de_deletar,
}
use api_padrao.Database.{UsuarioRow, PasswordResetToken}
use api_padrao.World.{Request, Ports, Mail}
use api_padrao.Exec.{modify}
use api_padrao.Usuarios.Entity.{Usuario}
use api_padrao.Usuarios.Repository.{
  is_none, map_to_entity, find_by_email, find_one, invalidate_user_cache,
}
use api_padrao.Usuarios.Authorization.{can_update_usuario, can_restore_usuario, is_admin_in}
use api_padrao.Auth.{by_id}
use api_padrao.Recovery.{
  send, find_valid_by_hash, invalidate_all_for_user, create_reset_token, reset_row, reset_mail,
  update_senha, mark_used, forgot_user, forgot_password, changed_mail, notify_changed, reset_work,
  reset_found, reset_password,
}
use api_padrao.Usuarios.Service.{
  UpdateUsuarioDto, given, belongs_to_other, plan_email, plan_intent, plan_update, disabled_mail,
  finish, apply_plan, update,
}
use api_padrao.Usuarios.Transaction.{
  Plan, Intent, nothing, restore, soft_delete, restore_row, delete_row, write_data, guarded_update,
  apply_intent, revoke_if_senha, apply_data, read_back, update_work,
}
use api_padrao.Sessions.Keeps.{
  Keeps, untouched, pure-Keeps, gets-Keeps, raise_if-Keeps, or_raise-Keeps, if-Keeps, bind-Keeps,
  execute-Keeps,
}
use api_padrao.Sessions.Handlers.{revoke_active-Keeps}

invalidate-Keeps : (now id : ℕ) → Keeps (modify (invalidate_all_for_user now id))
unfolding invalidate_all_for_user
invalidate-Keeps now id = untouched (modify (invalidate_all_for_user now id)) (λ w. refl)

reset_token-Keeps : (row : PasswordResetToken) → Keeps (create_reset_token row)
unfolding create_reset_token
reset_token-Keeps row = untouched (create_reset_token row) (λ w. ground arith)

senha-Keeps : (now id : ℕ) (hash : String) → Keeps (update_senha now id hash)
unfolding update_senha
senha-Keeps now id hash = untouched (update_senha now id hash) (λ w. ground arith)

mark-Keeps : (now : ℕ) (id : String) → Keeps (modify (mark_used now id))
unfolding mark_used
mark-Keeps now id = untouched (modify (mark_used now id)) (λ w. refl)

guarded-Keeps :
    (id : ℕ) (deleted_at : Option ℕ) (new_email : Option Text) (change : UsuarioRow → UsuarioRow)
    → Keeps (guarded_update id deleted_at new_email change)
unfolding guarded_update
guarded-Keeps id deleted_at new_email change =
    untouched (guarded_update id deleted_at new_email change) (λ w. ground arith)

cache-Keeps : (req : Request) (id : ℕ) → Keeps (modify (invalidate_user_cache req id))
unfolding invalidate_user_cache
cache-Keeps req id = untouched (modify (invalidate_user_cache req id)) (λ w. ground arith)

intent-Keeps :
    (req : Request) (id : ℕ) (deleted_at : Option ℕ) (intent : Intent)
    → Keeps (apply_intent req id deleted_at intent)
intent-Keeps req id deleted_at nothing = pure-Keeps false
intent-Keeps req id deleted_at restore =
    bind-Keeps (raise_if-Keeps (is_none deleted_at) (conflict nao_esta_deletado)) (λ a.
      bind-Keeps (guarded-Keeps id deleted_at none (restore_row req.now)) (λ b. pure-Keeps false))
intent-Keeps req id deleted_at soft_delete =
    bind-Keeps (raise_if-Keeps (not (is_none deleted_at)) (conflict ja_esta_deletado))
      (λ a. bind-Keeps (guarded-Keeps id none none (delete_row req.now)) (λ b. pure-Keeps true))

revoke_if-Keeps : (req : Request) (id : ℕ) (o : Option String) → Keeps (revoke_if_senha req id o)
revoke_if-Keeps req id none = pure-Keeps tt
revoke_if-Keeps req id (some hash) = revoke_active-Keeps req.now id

data-Keeps :
    (req : Request) (id : ℕ) (deleted_at : Option ℕ) (plan : Plan)
    → Keeps (apply_data req id deleted_at plan)
data-Keeps req id deleted_at plan = bind-Keeps (revoke_if-Keeps req id plan.new_senha) (λ a.
    if-Keeps (is_none plan.new_email && is_none plan.new_senha) (pure-Keeps tt)
      (guarded-Keeps id deleted_at plan.new_email (write_data req.now plan)))

read_back-Keeps : (id : ℕ) (disabled_now : Bool) → Keeps (read_back id disabled_now)
read_back-Keeps id disabled_now =
    bind-Keeps (gets-Keeps (λ w. find (by_id id) w.db.usuarios)) (λ after.
      bind-Keeps (or_raise-Keeps after (not_found usuario_nao_encontrado))
        (λ updated. pure-Keeps (map_to_entity updated, disabled_now)))

update_work-Keeps : (req : Request) (id : ℕ) (plan : Plan) → Keeps (update_work req id plan)
unfolding update_work
update_work-Keeps req id plan =
    bind-Keeps (gets-Keeps (λ w. find (by_id id) w.db.usuarios)) (λ found.
      bind-Keeps (or_raise-Keeps found (not_found usuario_nao_encontrado)) (λ current.
        bind-Keeps (intent-Keeps req id current.deleted_at plan.intent) (λ disabled_now.
          bind-Keeps (data-Keeps req id current.deleted_at plan)
            (λ a. read_back-Keeps id disabled_now))))

module _ (ports : Ports) where
  send-Keeps : (mail : Mail) → Keeps (send ports mail)
  unfolding send
  send-Keeps mail = untouched (send ports mail) (λ w. ground arith)

  forgot_user-Keeps : (req : Request) (o : Option Usuario) → Keeps (forgot_user ports req o)
  forgot_user-Keeps req none = pure-Keeps tt
  forgot_user-Keeps req (some user) = if-Keeps (not user.ativo) (pure-Keeps tt) (
      bind-Keeps (invalidate-Keeps req.now user.id) (λ a.
        bind-Keeps (reset_token-Keeps (reset_row ports req user.id))
          (λ b. send-Keeps (reset_mail ports req user))))

  pub forgot-Keeps : (req : Request) (email : Text) → Keeps (forgot_password ports req email)
  unfolding forgot_password
  forgot-Keeps req email =
      bind-Keeps (gets-Keeps (λ w. find_by_email email w.db)) (λ user. forgot_user-Keeps req user)

  changed-Keeps : (req : Request) (o : Option Usuario) → Keeps (notify_changed ports req o)
  changed-Keeps req none = pure-Keeps tt
  changed-Keeps req (some u) = send-Keeps (changed_mail ports req u)

  reset_work-Keeps :
      (req : Request) (token : PasswordResetToken) (hash : String)
      → Keeps (reset_work req token hash)
  unfolding reset_work
  reset_work-Keeps req token hash = bind-Keeps (senha-Keeps req.now token.user_id hash) (λ a.
      bind-Keeps (revoke_active-Keeps req.now token.user_id) (λ b. mark-Keeps req.now token.id))

  found-Keeps :
      (req : Request) (token : PasswordResetToken) (nova_senha : String)
      → Keeps (reset_found ports req token nova_senha)
  unfolding reset_found
  found-Keeps req token nova_senha =
      bind-Keeps (execute-Keeps (reset_work-Keeps req token (ports.hash_password nova_senha))) (λ a.
        bind-Keeps (gets-Keeps (λ w. find_one token.user_id false w.db))
          (λ usuario. changed-Keeps req usuario))

  pub reset-Keeps :
      (req : Request) (token nova_senha : String)
      → Keeps (reset_password ports req token nova_senha)
  unfolding reset_password
  reset-Keeps req token nova_senha =
      bind-Keeps (gets-Keeps (λ w. find_valid_by_hash req.now (ports.hash_token token) w.db))
        (λ found.
          bind-Keeps (or_raise-Keeps found (unauthorized token_de_reset_invalido))
            (λ row. found-Keeps req row nova_senha))

  plan_email-Keeps : (id : ℕ) (pre : Usuario) (o : Option Text) → Keeps (plan_email ports id pre o)
  plan_email-Keeps id pre none = pure-Keeps none
  plan_email-Keeps id pre (some email) = if-Keeps (email == pre.email) (pure-Keeps none) (
      bind-Keeps (gets-Keeps (λ w. find_by_email email w.db)) (λ existente.
        bind-Keeps (raise_if-Keeps (belongs_to_other ports id existente) (conflict email_em_uso))
          (λ a. pure-Keeps (some email))))

  plan_intent-Keeps :
      (id : ℕ) (logado : JwtPayload) (empresa_id : Option String) (o : Option Bool)
      → Keeps (plan_intent ports id logado empresa_id o)
  plan_intent-Keeps id logado empresa_id none = pure-Keeps nothing
  plan_intent-Keeps id logado empresa_id (some true) =
      bind-Keeps
        (raise_if-Keeps (not (can_restore_usuario id logado))
          (forbidden sem_permissao_de_restaurar))
        (λ a. pure-Keeps restore)
  plan_intent-Keeps id logado empresa_id (some false) =
      bind-Keeps
        (raise_if-Keeps (not (is_admin_in empresa_id logado)) (forbidden sem_permissao_de_deletar))
        (λ a. pure-Keeps soft_delete)

  plan-Keeps :
      (id : ℕ) (dto : UpdateUsuarioDto) (logado : JwtPayload) (empresa_id : Option String)
      → Keeps (plan_update ports id dto logado empresa_id)
  unfolding plan_update
  plan-Keeps id dto logado empresa_id =
      bind-Keeps (gets-Keeps (λ w. find_one id true w.db)) (λ found.
        bind-Keeps (or_raise-Keeps found (not_found usuario_nao_encontrado)) (λ pre.
          bind-Keeps
            (raise_if-Keeps (not (can_update_usuario pre.id logado))
              (forbidden sem_permissao_de_atualizar))
            (λ a. bind-Keeps (plan_email-Keeps id pre dto.email) (λ new_email.
              bind-Keeps (plan_intent-Keeps pre.id logado empresa_id dto.ativo) (λ intent.
                pure-Keeps (record {
                  intent = intent;
                  new_email = new_email;
                  new_senha = Option.map ports.hash_password (given dto.senha);
                }))))))

  finish-Keeps :
      (req : Request) (id : ℕ) (plan : Plan) (done : Usuario × Bool)
      → Keeps (finish ports req id plan done)
  finish-Keeps req id plan done =
      bind-Keeps
        (if-Keeps (not (is_none plan.new_senha) || done.1 || not (is_none plan.new_email))
          (cache-Keeps req id) (pure-Keeps tt))
        (λ a.
          bind-Keeps (if-Keeps done.1 (send-Keeps (disabled_mail ports req done.0)) (pure-Keeps tt))
            (λ b. pure-Keeps done.0))

  pub update-Keeps :
      (req : Request) (id : ℕ) (dto : UpdateUsuarioDto) (logado : JwtPayload)
      (empresa_id : Option String)
      → Keeps (update ports req id dto logado empresa_id)
  unfolding update apply_plan
  update-Keeps req id dto logado empresa_id =
      bind-Keeps (plan-Keeps id dto logado empresa_id) (λ plan.
        bind-Keeps (execute-Keeps (update_work-Keeps req id plan))
          (λ done. finish-Keeps req id plan done))
