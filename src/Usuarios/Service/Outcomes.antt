-- ===== src/Usuarios/Service/Outcomes.antt =====
-- PATCH of a user, as the caller and the database see it.
use api_padrao.Prelude.{
  inl, inr, ℕ, String, ◌≡◌, refl, sym, ap, ◌∙◌, ◌≢◌, Bool, true, false, ◌&&◌, Option, none, some,
  List, arith, find, count_where, update_where, Option-cases, Bool-cases, nat_eq, find-update_where,
  find-holds, count-update_where,
}
use api_padrao.Payload.{JwtPayload}
use api_padrao.Http.{Result, ok}
use api_padrao.Database.{UsuarioRow}
use api_padrao.World.{World, Request, Ports}
use api_padrao.Exec.{execute, execute-ok, >>=-ok}
use api_padrao.Auth.{by_id, is_active_of, revoke_at}
use api_padrao.Usuarios.Entity.{Usuario}
use api_padrao.Usuarios.Repository.{is_none, map_to_entity, invalidate_user_cache}
use api_padrao.Usuarios.Authorization.{is_admin_in}
use api_padrao.Recovery.{send}
use api_padrao.Usuarios.Service.{finish, UpdateUsuarioDto, given, apply_plan, plan_update, update}
use api_padrao.Usuarios.Transaction.{
  Plan, nothing, soft_delete, is_row, same_moment, delete_row, write_data, update_work,
}
use api_padrao.Usuarios.Service.Update.{Planned, plan_update-ok, update_work-both}

same_moment_refl : (d : Option ℕ) → same_moment d d ≡ true
same_moment_refl none = refl
same_moment_refl (some t) = ground arith

-- the row of a user after a guarded write that found it
find-guarded :
    (id : ℕ) (change : UsuarioRow → UsuarioRow) (rows : List UsuarioRow) (u : UsuarioRow)
    → ((v : UsuarioRow) → (change v).id ≡ v.id)
    → find (by_id id) rows ≡ some u
    → find (by_id id) (update_where (is_row id u.deleted_at) change rows) ≡ some (change u)
find-guarded id change rows u keeps e = ground (
  arith,
  find-update_where (by_id id) (is_row id u.deleted_at) change rows (λ v. ground (arith, keeps v)),
  find-holds (by_id id) rows e,
  same_moment_refl u.deleted_at,
)

-- the transaction where `ativo` is not given and the password is
work-senha :
    (req : Request) (id : ℕ) (plan : Plan) (hash : String) (w w' : World) (u : UsuarioRow)
    (r : Usuario × Bool)
    → plan.intent ≡ nothing
    → plan.new_senha ≡ some hash
    → find (by_id id) w.db.usuarios ≡ some u
    → update_work req id plan w ≡ (ok r, w')
    → (find (by_id id) w'.db.usuarios ≡ some (write_data req.now plan u))
      × (w'.db.refresh_tokens
          ≡ update_where (is_active_of id) (revoke_at req.now) w.db.refresh_tokens)
unfolding update_work
work-senha req id plan hash w w' u r i s found e =
    ground (arith, find-guarded id (write_data req.now plan) w.db.usuarios u (λ v. refl) found)

-- the transaction that deletes
work-delete :
    (req : Request) (id : ℕ) (plan : Plan) (w w' : World) (u : UsuarioRow) (r : Usuario × Bool)
    → plan.intent ≡ soft_delete
    → (is_none plan.new_email && is_none plan.new_senha) ≡ true
    → find (by_id id) w.db.usuarios ≡ some u
    → update_work req id plan w ≡ (ok r, w')
    → (u.deleted_at ≡ none)
      × (r ≡ (map_to_entity (delete_row req.now u), true))
      × (find (by_id id) w'.db.usuarios ≡ some (delete_row req.now u))
unfolding update_work
work-delete req id plan w w' u r i s found e =
    let written = find-guarded id (delete_row req.now) w.db.usuarios u (λ v. refl) found in
    ground arith

module _ (ports : Ports) where
  finish-db :
      (req : Request) (id : ℕ) (plan : Plan) (r : Usuario × Bool) (w : World)
      → (finish ports req id plan r w).1.db ≡ w.db
  unfolding invalidate_user_cache send
  finish-db req id plan (u, disabled_now) w = ground arith

  finish-ok :
      (req : Request) (id : ℕ) (plan : Plan) (r : Usuario × Bool) (w w' : World) (u : Usuario)
      → finish ports req id plan r w ≡ (ok u, w')
      → u ≡ r.0
  unfolding invalidate_user_cache send
  finish-ok req id plan (v, disabled_now) w w' u e = ground arith

  -- a call that returns has run its transaction, and wrote nothing to the database after it
  update-ok :
      (req : Request) (id : ℕ) (dto : UpdateUsuarioDto) (logado : JwtPayload)
      (empresa_id : Option String) (w w' : World) (u : Usuario)
      → update ports req id dto logado empresa_id w ≡ (ok u, w')
      → (plan : Plan) × (r : Usuario × Bool) × (w₁ : World) × Planned ports id dto logado empresa_id
          w plan
        × (apply_plan ports req id plan w ≡ (ok u, w'))
        × (update_work req id plan w ≡ (ok r, w₁))
        × (u ≡ r.0)
        × (w'.db ≡ w₁.db)
  unfolding update apply_plan
  update-ok req id dto logado empresa_id w w' u e =
      let (plan, w₀, planned, applied) =
        >>=-ok (plan_update ports id dto logado empresa_id) (apply_plan ports req id) w e in
      let (same, facts) = plan_update-ok ports id dto logado empresa_id w w₀ plan planned in
      let applied' : apply_plan ports req id plan w ≡ (ok u, w') = rw same at applied in
      let (r, w₁, worked, finished) =
        >>=-ok (execute (update_work req id plan)) (finish ports req id plan) w applied' in
      (
        plan,
        r,
        w₁,
        facts,
        applied',
        execute-ok (update_work req id plan) w worked,
        finish-ok req id plan r w₁ w' u finished,
        ap (λ (s : Result Usuario × World). s.1.db) (sym finished) ∙ finish-db req id plan r w₁,
      )

  -- A request that gives `ativo` and a password is never carried out: whatever the state of the
  -- user, it does not return.
  pub update-ne-ok_of_ativo_and_senha :
      (req : Request) (id : ℕ) (dto : UpdateUsuarioDto) (logado : JwtPayload)
      (empresa_id : Option String) (w : World) (b : Bool) (s : String)
      → dto.ativo ≡ some b
      → given dto.senha ≡ some s
      → (u : Usuario) (w' : World) → update ports req id dto logado empresa_id w ≢ (ok u, w')
  update-ne-ok_of_ativo_and_senha req id dto logado empresa_id w b s ativo senha u w' e =
      let (plan, r, w₁, p, applied, worked, same, db) =
        update-ok req id dto logado empresa_id w w' u e in
      let refused =
        update_work-both req id plan w p.row (intent-ne b ativo p) (ground (arith, p.senha))
          p.found in
      ground arith
    where
      intent-ne :
          (c : Bool)
          → dto.ativo ≡ some c
          → {plan : Plan} → Planned ports id dto logado empresa_id w plan
          → plan.intent ≢ nothing
      intent-ne true h p i = cc ((p.restoring h).0)
      intent-ne false h p i = cc ((p.deleting h).0)

  -- A call that returns after a new password was given has stored its hash, and has left the user
  -- no active refresh token.
  pub update-senha :
      (req : Request) (id : ℕ) (dto : UpdateUsuarioDto) (logado : JwtPayload)
      (empresa_id : Option String) (w w' : World) (u : Usuario) (s : String)
      → given dto.senha ≡ some s
      → update ports req id dto logado empresa_id w ≡ (ok u, w')
      → (count_where (is_active_of id) w'.db.refresh_tokens ≡ 0)
        × (row : UsuarioRow) × (find (by_id id) w'.db.usuarios ≡ some row)
        × (row.senha ≡ some (ports.hash_password s))
  update-senha req id dto logado empresa_id w w' u s senha e = elim (Option-cases dto.ativo) [
    | inl absent ↦
        let (plan, r, w₁, p, applied, worked, same, db) =
          update-ok req id dto logado empresa_id w w' u e in
        let hash : plan.new_senha ≡ some (ports.hash_password s) = ground (arith, p.senha) in
        let (row, rows) =
          work-senha req id plan (ports.hash_password s) w w₁ p.row r (p.kept absent) hash p.found
            worked in
        let none_left =
          count-update_where (is_active_of id) (revoke_at req.now) w.db.refresh_tokens
            (λ t h. ground arith) in
        (ground arith, write_data req.now plan p.row, ground arith, ground arith)
    | inr (b, given_ativo) ↦ absurd (
        update-ne-ok_of_ativo_and_senha req id dto logado empresa_id w b s given_ativo senha u w' e)
  ]

  -- A call that returns after `ativo: false` was given came from an administrator of the company in
  -- the context; the user was not deleted before, and is deleted and inactive after it, as the
  -- result says.
  pub update-soft_delete :
      (req : Request) (id : ℕ) (dto : UpdateUsuarioDto) (logado : JwtPayload)
      (empresa_id : Option String) (w w' : World) (u : Usuario)
      → dto.ativo ≡ some false
      → update ports req id dto logado empresa_id w ≡ (ok u, w')
      → (is_admin_in empresa_id logado ≡ true)
        × (row : UsuarioRow) × (find (by_id id) w.db.usuarios ≡ some row)
        × (row.deleted_at ≡ none)
        × (find (by_id id) w'.db.usuarios ≡ some (delete_row req.now row))
        × (u ≡ map_to_entity (delete_row req.now row))
  update-soft_delete req id dto logado empresa_id w w' u ativo e =
      let (plan, r, w₁, p, applied, worked, same, db) =
        update-ok req id dto logado empresa_id w w' u e in
      let (deletes, admin) = p.deleting ativo in
      elim (Bool-cases (is_none plan.new_email && is_none plan.new_senha)) [
        | inl alone ↦
            let (before, result, after) =
              work-delete req id plan w w₁ p.row r deletes alone p.found worked in
            (admin, p.row, p.found, before, ground arith, ground arith)
        | inr writes ↦ absurd (
            ground
              (arith, update_work-both req id plan w p.row (λ i. cc (deletes, i)) writes p.found))
      ]
