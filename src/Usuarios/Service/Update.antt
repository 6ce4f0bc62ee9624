-- ===== src/Usuarios/Service/Update.antt =====
-- What PATCH of a user guarantees.
use api_padrao.Prelude.{
  String, ℕ, Text, ◌≡◌, refl, ap, ◌≢◌, inl, inr, Bool, true, false, ◌&&◌, Option, none, some, arith,
  find, Option-cases, Bool-cases, nat_eq, count-update_where,
}
use api_padrao.Payload.{JwtPayload}
use api_padrao.Http.{
  Motivo, nao_esta_deletado, ja_esta_deletado, conflict, modificado_por_outra, ok, err,
}
use api_padrao.Database.{UsuarioRow}
use api_padrao.World.{World, Request, Ports}
use api_padrao.Exec.{Exec, >>=-ok, ◌>>=◌, ◌>>◌}
use api_padrao.Auth.{by_id, revoke_active_of}
use api_padrao.Usuarios.Entity.{Usuario}
use api_padrao.Usuarios.Repository.{is_none}
use mathlib.Core.Option
use mathlib.Core.Path.{fun_ext}
use api_padrao.Usuarios.Repository.{find_one, map_to_entity}
use api_padrao.Usuarios.Authorization.{can_update_usuario, can_restore_usuario, is_admin_in}
use api_padrao.Usuarios.Service.{
  with_permission, with_email, with_intent, plan_email, plan_intent, plan_update, UpdateUsuarioDto,
  given, apply_plan,
}
use api_padrao.Usuarios.Transaction.{
  read_back, apply_intent, apply_data, Plan, nothing, restore, soft_delete, Intent, is_row,
  same_moment, restore_row, delete_row, guarded_update, update_work,
}

abbrev pub WritesData : Plan → Type 0
WritesData plan = (is_none plan.new_email && is_none plan.new_senha) ≡ false

abbrev pub both_motivo : Intent → Option ℕ → Motivo
both_motivo restore none = nao_esta_deletado
both_motivo soft_delete (some t) = ja_esta_deletado
both_motivo _ _ = modificado_por_outra

-- step 2b after a write of step 2a that took the row away from its guard
write_if_any-stale :
    (req : Request) (id : ℕ) (d : Option ℕ) (change : UsuarioRow → UsuarioRow) (plan : Plan)
    (w : World)
    → WritesData plan
    → ((u : UsuarioRow)
        → same_moment u.deleted_at d ≡ true
        → same_moment (change u).deleted_at d ≡ false)
    → (guarded_update id d none change w).0 ≡ ok tt
    → (apply_data req id d plan (guarded_update id d none change w).1).0
      ≡ err (conflict modificado_por_outra)
unfolding guarded_update revoke_active_of
write_if_any-stale req id d change plan w writes moves e =
    ground (
      arith,
      count-update_where (is_row id d) change w.db.usuarios (λ x h. ground (arith, moves x)),
    )

apply_both :
    {A : Type 0} (req : Request) (id : ℕ) (d : Option ℕ) (i : Intent) (plan : Plan) (w : World)
    (k : Bool → Exec A)
    → i ≢ nothing
    → WritesData plan
    → ((do b ← apply_intent req id d i; apply_data req id d plan; k b) w).0
      ≡ err (conflict (both_motivo i d))
unfolding guarded_update
apply_both req id d nothing plan w k h writes = absurd (h refl)
apply_both req id none restore plan w k h writes = refl
apply_both req id (some t) restore plan w k h writes =
    ground
      (arith, write_if_any-stale req id (some t) (restore_row req.now) plan w writes (λ u _. refl))
apply_both req id none soft_delete plan w k h writes =
    ground (arith, write_if_any-stale req id none (delete_row req.now) plan w writes (λ u _. refl))
apply_both req id (some t) soft_delete plan w k h writes = refl

pub update_work-both :
    (req : Request) (id : ℕ) (plan : Plan) (w : World) (u : UsuarioRow)
    → plan.intent ≢ nothing
    → WritesData plan
    → find (by_id id) w.db.usuarios ≡ some u
    → (update_work req id plan w).0 ≡ err (conflict (both_motivo plan.intent u.deleted_at))
unfolding update_work
update_work-both req id plan w u h writes e =
    rw e (apply_both req id u.deleted_at plan.intent plan w (read_back id) h writes)

and-true : (b : Bool) → (b && true) ≡ b
and-true true = refl
and-true false = refl

module _ (ports : Ports) where
  pub apply_plan-both :
      (req : Request) (id : ℕ) (plan : Plan) (w : World) (u : UsuarioRow)
      → plan.intent ≢ nothing
      → WritesData plan
      → find (by_id id) w.db.usuarios ≡ some u
      → (apply_plan ports req id plan w).0 ≡ err (conflict (both_motivo plan.intent u.deleted_at))
  unfolding apply_plan
  apply_plan-both req id plan w u h writes e =
      ground (arith, update_work-both req id plan w u h writes e)

  -- what the checks before the transaction establish
  pub record Planned (id : ℕ) (dto : UpdateUsuarioDto) (logado : JwtPayload)
      (empresa_id : Option String) (w : World) (plan : Plan) : Type 0 where
    pub row : UsuarioRow
    pub found : find (by_id id) w.db.usuarios ≡ some row
    pub allowed : can_update_usuario row.id logado ≡ true
    pub senha : plan.new_senha ≡ Option.map ports.hash_password (given dto.senha)
    pub kept : dto.ativo ≡ none → plan.intent ≡ nothing
    pub restoring :
        dto.ativo ≡ some true → (plan.intent ≡ restore) × (can_restore_usuario row.id logado ≡ true)
    pub deleting :
        dto.ativo ≡ some false
        → (plan.intent ≡ soft_delete) × (is_admin_in empresa_id logado ≡ true)

  find_one-deleted :
      (id : ℕ) (w : World)
      → find_one id true w.db ≡ Option.map map_to_entity (find (by_id id) w.db.usuarios)
  unfolding find_one
  find_one-deleted id w =
      ap (λ (p : UsuarioRow → Bool). Option.map map_to_entity (find p w.db.usuarios))
        (fun_ext λ u. and-true (by_id id u))

  plan_intent-ok :
      (id : ℕ) (logado : JwtPayload) (empresa_id : Option String) (o : Option Bool) (w w' : World)
      (i : Intent)
      → plan_intent ports id logado empresa_id o w ≡ (ok i, w')
      → (w' ≡ w)
        × (o ≡ none → i ≡ nothing)
        × (o ≡ some true → (i ≡ restore) × (can_restore_usuario id logado ≡ true))
        × (o ≡ some false → (i ≡ soft_delete) × (is_admin_in empresa_id logado ≡ true))
  plan_intent-ok id logado empresa_id none w w' i e = ground arith
  plan_intent-ok id logado empresa_id (some true) w w' i e = ground arith
  plan_intent-ok id logado empresa_id (some false) w w' i e = ground arith

  plan_email-ok :
      (id : ℕ) (pre : Usuario) (o : Option Text) (w w' : World) (r : Option Text)
      → plan_email ports id pre o w ≡ (ok r, w')
      → w' ≡ w
  plan_email-ok id pre none w w' r e = ground arith
  plan_email-ok id pre (some email) w w' r e = ground arith

  with_permission-ok :
      (id : ℕ) (dto : UpdateUsuarioDto) (logado : JwtPayload) (empresa_id : Option String)
      (row : UsuarioRow) (w w' : World) (plan : Plan)
      → find (by_id id) w.db.usuarios ≡ some row
      → can_update_usuario row.id logado ≡ true
      → with_permission ports id dto logado empresa_id (map_to_entity row) w ≡ (ok plan, w')
      → (w' ≡ w) × Planned id dto logado empresa_id w plan
  with_permission-ok id dto logado empresa_id row w w' plan found allowed e =
      let (email, w₁, planned, e₁) =
        >>=-ok (plan_email ports id (map_to_entity row) dto.email)
          (with_email ports dto logado empresa_id (map_to_entity row)) w e in
      let (intent, w₂, intended, e₂) =
        >>=-ok (plan_intent ports row.id logado empresa_id dto.ativo) (with_intent ports dto email)
          w₁ e₁ in
      let same = plan_email-ok id (map_to_entity row) dto.email w w₁ email planned in
      let (same', kept, restoring, deleting) =
        plan_intent-ok row.id logado empresa_id dto.ativo w₁ w₂ intent intended in
      (
        cc,
        record {
          row = row;
          found = found;
          allowed = allowed;
          senha = cc;
          kept = λ h. cc (kept h);
          restoring = λ h. (cc ((restoring h).0), (restoring h).1);
          deleting = λ h. (cc ((deleting h).0), (deleting h).1);
        },
      )

  pub plan_update-ok :
      (id : ℕ) (dto : UpdateUsuarioDto) (logado : JwtPayload) (empresa_id : Option String)
      (w w' : World) (plan : Plan)
      → plan_update ports id dto logado empresa_id w ≡ (ok plan, w')
      → (w' ≡ w) × Planned id dto logado empresa_id w plan
  unfolding plan_update
  plan_update-ok id dto logado empresa_id w w' plan e =
      elim (Option-cases (find (by_id id) w.db.usuarios)) [
        | inl missing ↦ absurd (ground (arith, find_one-deleted id w))
        | inr (row, found) ↦ elim (Bool-cases (can_update_usuario row.id logado)) [
          | inl allowed ↦
              with_permission-ok id dto logado empresa_id row w w' plan found allowed
                (ground (arith, find_one-deleted id w))
          | inr denied ↦ absurd (ground (arith, find_one-deleted id w))
        ]
      ]
