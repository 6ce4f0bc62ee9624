-- ===== src/Recovery/Reset.antt =====
-- What a confirmation of a password reset that returns has done.
use api_padrao.Prelude.{
  inl, inr, ℕ, String, ◌≡◌, refl, sym, ap, ◌∙◌, true, false, Option, none, some, arith, any,
  count_where, update_where, Option-cases, nat_eq, string_eq, eq_iff, find-holds, find-Mem, Memᴰ,
  ◌==◌, ◌&&◌, count-update_where, ◌<◌,
}
use api_padrao.Http.{Result, ok}
use api_padrao.Database.{UsuarioRow, RefreshToken, Database, PasswordResetToken}
use api_padrao.World.{World, Request, Ports}
use api_padrao.Exec.{execute, execute-ok, >>=-ok}
use api_padrao.Auth.{by_id, is_active_of, revoke_at}
use api_padrao.Usuarios.Entity.{Usuario}
use api_padrao.Usuarios.Repository.{is_none, find_one}
use api_padrao.Recovery.{
  is_valid_hash, find_valid_by_hash, use_at, has_id, set_senha, update_senha, reset_work,
  reset_rest, notify_changed, notify_user, send, reset_found, reset_password,
}

update_senha-ok :
    (now id : ℕ) (hash : String) (w w' : World)
    → update_senha now id hash w ≡ (ok tt, w')
    → (any (by_id id) w.db.usuarios ≡ true)
      × (w'.db
          ≡ record w.db { usuarios = update_where (by_id id) (set_senha now hash) w.db.usuarios })
unfolding update_senha
update_senha-ok now id hash w w' e = ground arith

-- the transaction, where the user is there
reset_work-ok :
    (req : Request) (row : PasswordResetToken) (hash : String) (w w' : World)
    → reset_work req row hash w ≡ (ok tt, w')
    → (any (by_id row.user_id) w.db.usuarios ≡ true)
      × (w'.db.usuarios ≡ update_where (by_id row.user_id) (set_senha req.now hash) w.db.usuarios)
      × (w'.db.refresh_tokens
          ≡ update_where (is_active_of row.user_id) (revoke_at req.now) w.db.refresh_tokens)
      × (w'.db.reset_tokens ≡ update_where (has_id row.id) (use_at req.now) w.db.reset_tokens)
unfolding reset_work
reset_work-ok req row hash w w' e =
    let (done, w₁, written, rest) =
      >>=-ok (update_senha req.now row.user_id hash) (λ _. reset_rest req row) w e in
    let (known, same) = update_senha-ok req.now row.user_id hash w w₁ written in ground arith

module _ (ports : Ports) where
  -- what a reset that returns has found and written
  pub record WasReset (req : Request) (token nova_senha : String) (w w' : World) : Type 0 where
    pub row : PasswordResetToken
    pub found : find_valid_by_hash req.now (ports.hash_token token) w.db ≡ some row
    pub known : any (by_id row.user_id) w.db.usuarios ≡ true
    pub senhas :
        w'.db.usuarios
        ≡ update_where
            (by_id row.user_id)
            (set_senha req.now (ports.hash_password nova_senha))
            w.db.usuarios
    pub tokens :
        w'.db.refresh_tokens
        ≡ update_where (is_active_of row.user_id) (revoke_at req.now) w.db.refresh_tokens
    pub used : w'.db.reset_tokens ≡ update_where (has_id row.id) (use_at req.now) w.db.reset_tokens

  notify_changed-db :
      (req : Request) (o : Option Usuario) (w : World) → (notify_changed ports req o w).1.db ≡ w.db
  unfolding send
  notify_changed-db req none w = refl
  notify_changed-db req (some u) w = ground arith

  notify_user-db : (req : Request) (id : ℕ) (w : World) → (notify_user ports req id w).1.db ≡ w.db
  notify_user-db req id w = notify_changed-db req (find_one id false w.db) w

  pub reset_found-ok :
      (req : Request) (row : PasswordResetToken) (nova_senha : String) (w w' : World)
      → reset_found ports req row nova_senha w ≡ (ok tt, w')
      → (any (by_id row.user_id) w.db.usuarios ≡ true)
        × (w'.db.usuarios
            ≡ update_where
                (by_id row.user_id)
                (set_senha req.now (ports.hash_password nova_senha))
                w.db.usuarios)
        × (w'.db.refresh_tokens
            ≡ update_where (is_active_of row.user_id) (revoke_at req.now) w.db.refresh_tokens)
        × (w'.db.reset_tokens ≡ update_where (has_id row.id) (use_at req.now) w.db.reset_tokens)
  unfolding reset_found
  reset_found-ok req row nova_senha w w' e =
      let (done, w₁, worked, notified) =
        >>=-ok (execute (reset_work req row (ports.hash_password nova_senha)))
          (λ _. notify_user ports req row.user_id) w e in
      let (known, senhas, tokens, used) =
        reset_work-ok req row (ports.hash_password nova_senha) w w₁
          (execute-ok (reset_work req row (ports.hash_password nova_senha)) w worked) in
      let same =
        ap (λ (s : Result (Unit {0}) × World). s.1.db) (sym notified)
        ∙ notify_user-db req row.user_id w₁ in
      (
        known,
        ap (λ (d : Database). d.usuarios) same ∙ senhas,
        ap (λ (d : Database). d.refresh_tokens) same ∙ tokens,
        ap (λ (d : Database). d.reset_tokens) same ∙ used,
      )

  pub reset-ok :
      (req : Request) (token nova_senha : String) (w w' : World)
      → reset_password ports req token nova_senha w ≡ (ok tt, w')
      → WasReset req token nova_senha w w'
  unfolding reset_password
  reset-ok req token nova_senha w w' e =
      elim (Option-cases (find_valid_by_hash req.now (ports.hash_token token) w.db)) [
        | inl missing ↦ absurd (cc (rw (missing, reset_password) at e))
        | inr (row, found) ↦
            let (known, senhas, tokens, used) =
              reset_found-ok req row nova_senha w w' (rw (found, reset_password) at e) in
            record {
              row = row;
              found = found;
              known = known;
              senhas = senhas;
              tokens = tokens;
              used = used;
            }
      ]

  -- A reset that returns has found in the table a row with the hash of the token, which was neither
  -- used nor expired, and marks that row as used; the user of the row was there, has the hash of the
  -- new password afterwards, and no active refresh token.
  pub reset_password_sound :
      (req : Request) (token nova_senha : String) (w w' : World)
      → reset_password ports req token nova_senha w ≡ (ok tt, w')
      → (row : PasswordResetToken) × Memᴰ row w.db.reset_tokens
        × (row.token_hash ≡ ports.hash_token token)
        × (row.used_at ≡ none)
        × (req.now < row.expires_at)
        × (w'.db.reset_tokens
            ≡ update_where
                (λ (t : PasswordResetToken). t.id == row.id)
                (λ (t : PasswordResetToken). record t { used_at = some req.now })
                w.db.reset_tokens)
        × (count_where
              (λ (t : RefreshToken). t.user_id == row.user_id && is_none t.revoked_at)
              w'.db.refresh_tokens
            ≡ 0)
        × (any (λ (u : UsuarioRow). u.id == row.user_id) w.db.usuarios ≡ true)
        × (w'.db.usuarios
            ≡ update_where
                (λ (u : UsuarioRow). u.id == row.user_id)
                (λ (u : UsuarioRow). record u {
                  senha = some (ports.hash_password nova_senha);
                  updated_at = req.now;
                })
                w.db.usuarios)
  unfolding find_valid_by_hash
  reset_password_sound req token nova_senha w w' e =
      let r = reset-ok req token nova_senha w w' e in
      let valid =
        find-holds (is_valid_hash req.now (ports.hash_token token)) w.db.reset_tokens r.found in
      let none_left =
        count-update_where (is_active_of r.row.user_id) (revoke_at req.now) w.db.refresh_tokens
          (λ t h. ground arith) in
      (
        r.row,
        find-Mem (is_valid_hash req.now (ports.hash_token token)) w.db.reset_tokens r.found,
        (eq_iff r.row.token_hash (ports.hash_token token)).0 (ground arith),
        ground arith,
        ground arith,
        r.used,
        ground (arith, r.tokens),
        r.known,
        r.senhas,
      )
