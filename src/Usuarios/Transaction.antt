-- ===== src/Usuarios/Transaction.antt =====
-- The transaction of `update` in src/usuarios/application/services/usuarios.service.ts.
use api_padrao.Prelude.{
  ℕ, String, Text, Bool, true, false, not, ◌&&◌, Option, none, some, List, any, find, count_where,
  update_where, ◌==◌, nat_eq, string_eq, text_eq, if◌then◌else◌,
}
use api_padrao.Http.{
  not_found, conflict, unexpected, usuario_nao_encontrado, nao_esta_deletado, ja_esta_deletado,
  modificado_por_outra, ok, err,
}
use api_padrao.Database.{UsuarioRow}
use api_padrao.World.{Request}
use api_padrao.Exec.{Exec, pure, gets, modify, or_raise, raise_if, ◌>>=◌, ◌>>◌}
use api_padrao.Auth.{revoke_active_of, by_id}
use api_padrao.Usuarios.Entity.{Usuario}
use api_padrao.Usuarios.Repository.{is_none, map_to_entity}

-- `deletedAt: current.deletedAt` of a `where`
abbrev pub same_moment : Option ℕ → Option ℕ → Bool
same_moment none none = true
same_moment (some a) (some b) = a == b
same_moment _ _ = false

abbrev pub is_row : ℕ → Option ℕ → UsuarioRow → Bool
is_row id deleted_at u = u.id == id && same_moment u.deleted_at deleted_at

-- the e-mail is a unique column: another row has the new one, be it deleted or not
unfoldable pub takes_email : ℕ → Option Text → List UsuarioRow → Bool
takes_email id none rows = false
takes_email id (some email) rows =
    any (λ (u : UsuarioRow). not (u.id == id) && u.email == email) rows

-- `updateMany` with the expected state in its `where`; no row means that another request wrote it,
-- and the database raises on a new e-mail that is taken
unfoldable pub guarded_update :
    ℕ → Option ℕ → Option Text → (UsuarioRow → UsuarioRow) → Exec (Unit {0})
unfolding takes_email
guarded_update id deleted_at new_email change w =
    if count_where (is_row id deleted_at) w.db.usuarios == 0
    then (err (conflict modificado_por_outra), w)
    else if takes_email id new_email w.db.usuarios
    then (err (unexpected 2002), w)
    else (
      ok tt,
      record w {
        db = record w.db { usuarios = update_where (is_row id deleted_at) change w.db.usuarios };
      },
    )

abbrev pub restore_row : ℕ → UsuarioRow → UsuarioRow
restore_row now u = record u { deleted_at = none; ativo = true; updated_at = now }

abbrev pub delete_row : ℕ → UsuarioRow → UsuarioRow
delete_row now u = record u { deleted_at = some now; ativo = false; updated_at = now }

-- the intent of `ativo`, after its permission was checked
pub data Intent : Type 0 where
  nothing restore soft_delete : Intent

-- what the checks before the transaction have computed
pub record Plan : Type 0 where
  pub intent : Intent
  pub new_email : Option Text
  pub new_senha : Option String

abbrev pub or_same : {A : Type 0} → Option A → A → A
or_same none a = a
or_same (some b) a = b

abbrev pub write_data : ℕ → Plan → UsuarioRow → UsuarioRow
write_data now plan u = record u {
  email = or_same plan.new_email u.email;
  senha = elim plan.new_senha [ none ↦ u.senha | some h ↦ some h ];
  updated_at = now;
}

-- step 2a
abbrev pub apply_intent : Request → ℕ → Option ℕ → Intent → Exec Bool
apply_intent req id deleted_at nothing = pure false
apply_intent req id deleted_at restore = do
  raise_if (is_none deleted_at) (conflict nao_esta_deletado)
  guarded_update id deleted_at none (restore_row req.now)
  pure false
apply_intent req id deleted_at soft_delete = do
  raise_if (not (is_none deleted_at)) (conflict ja_esta_deletado)
  guarded_update id none none (delete_row req.now)
  pure true

abbrev pub revoke_if_senha : Request → ℕ → Option String → Exec (Unit {0})
revoke_if_senha req id none = pure tt
revoke_if_senha req id (some hash) = modify (revoke_active_of req.now id)

-- `Object.keys(data).length > 0`
abbrev pub write_if_any : Request → ℕ → Option ℕ → Plan → Exec (Unit {0})
write_if_any req id deleted_at plan =
    if is_none plan.new_email && is_none plan.new_senha
    then pure tt
    else guarded_update id deleted_at plan.new_email (write_data req.now plan)

-- step 2b; `current` is still the row that was read before step 2a
abbrev pub apply_data : Request → ℕ → Option ℕ → Plan → Exec (Unit {0})
apply_data req id deleted_at plan = do
  revoke_if_senha req id plan.new_senha
  write_if_any req id deleted_at plan

-- step 3
abbrev pub read_back : ℕ → Bool → Exec (Usuario × Bool)
read_back id disabled_now = do
  after ← gets (λ w. find (by_id id) w.db.usuarios)
  updated ← or_raise after (not_found usuario_nao_encontrado)
  pure (map_to_entity updated, disabled_now)

-- the callback that runs inside the transaction
unfoldable pub update_work : Request → ℕ → Plan → Exec (Usuario × Bool)
unfolding guarded_update revoke_active_of
update_work req id plan = do
  found ← gets (λ w. find (by_id id) w.db.usuarios)
  current ← or_raise found (not_found usuario_nao_encontrado)
  disabled_now ← apply_intent req id current.deleted_at plan.intent
  apply_data req id current.deleted_at plan
  read_back id disabled_now
