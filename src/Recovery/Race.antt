-- ===== src/Recovery/Race.antt =====
-- A token of a password reset, used twice at the same time.
use api_padrao.Prelude.{
  ℕ, String, ◌≡◌, refl, ap, ◌∙◌, true, Option, none, some, any, update_where, nat_eq, string_eq,
  any-update_where,
}
use api_padrao.Http.{Result, ok}
use api_padrao.Database.{PasswordResetToken}
use api_padrao.World.{World, Request, Ports, Mail}
use api_padrao.Exec.{execute, execute-step, returned, >>=-step}
use api_padrao.Auth.{by_id}
use api_padrao.Usuarios.Entity.{Usuario}
use api_padrao.Recovery.{
  find_valid_by_hash, set_senha, update_senha, reset_work, reset_rest, changed_mail, notify_changed,
  notify_user, send, reset_found, reset_password,
}
use api_padrao.Recovery.Reset.{reset_found-ok, reset-ok}

abbrev written_senha : ℕ → ℕ → String → World → World
written_senha now id hash w = record w {
  db = record w.db { usuarios = update_where (by_id id) (set_senha now hash) w.db.usuarios };
}

update_senha-known :
    (now id : ℕ) (hash : String) (w : World)
    → any (by_id id) w.db.usuarios ≡ true
    → update_senha now id hash w ≡ (ok tt, written_senha now id hash w)
unfolding update_senha
update_senha-known now id hash w known = rw known

module _ (ports : Ports) where
  notify_changed-sent :
      (req : Request) (o : Option Usuario) (w : World)
      → ((m : Mail) → ports.send_failure m ≡ none)
      → (notify_changed ports req o w).0 ≡ ok tt
  unfolding send
  notify_changed-sent req none w mails = refl
  notify_changed-sent req (some u) w mails = rw (mails (changed_mail ports req u), send)

  reset_found-known :
      (req : Request) (row : PasswordResetToken) (nova_senha : String) (w : World)
      → ((m : Mail) → ports.send_failure m ≡ none)
      → any (by_id row.user_id) w.db.usuarios ≡ true
      → (reset_found ports req row nova_senha w).0 ≡ ok tt
  unfolding reset_found reset_work
  reset_found-known req row nova_senha w mails known =
      let hash = ports.hash_password nova_senha in
      let written = update_senha-known req.now row.user_id hash w known in
      let worked =
        >>=-step (update_senha req.now row.user_id hash) (λ _. reset_rest req row) w written in
      let done =
        >>=-step (execute (reset_work req row hash)) (λ _. notify_user ports req row.user_id) w
          (execute-step (reset_work req row hash) w worked) in
      ap (λ (s : Result (Unit {0}) × World). s.0) done ∙ notify_changed-sent req _ _ mails

  -- The lookup of the token stands before the transaction, and the transaction does not look again.
  -- So of two requests that both found the token, the one whose transaction comes second also
  -- returns, and its password is the one that stays (where the e-mails do not raise).
  pub reset_password_race :
      (req₁ req₂ : Request) (token senha₁ senha₂ : String) (row : PasswordResetToken) (w w' : World)
      → ((m : Mail) → ports.send_failure m ≡ none)
      → find_valid_by_hash req₁.now (ports.hash_token token) w.db ≡ some row
      → find_valid_by_hash req₂.now (ports.hash_token token) w.db ≡ some row
      → reset_password ports req₁ token senha₁ w ≡ (ok tt, w')
      → (w'' : World) × (reset_found ports req₂ row senha₂ w' ≡ (ok tt, w''))
        × (w''.db.usuarios
            ≡ update_where
                (by_id row.user_id)
                (set_senha req₂.now (ports.hash_password senha₂))
                w'.db.usuarios)
  reset_password_race req₁ req₂ token senha₁ senha₂ row w w' mails found₁ found₂ e =
      let r = reset-ok ports req₁ token senha₁ w w' e in
      let same : r.row ≡ row = cc (r.found) in
      let known : any (by_id row.user_id) w'.db.usuarios ≡ true = rw (← same) (
        ap (any (by_id r.row.user_id)) r.senhas
        ∙ any-update_where (by_id r.row.user_id) (by_id r.row.user_id)
            (set_senha req₁.now (ports.hash_password senha₁)) w.db.usuarios (λ u. refl)
        ∙ r.known) in
      let done =
        returned (reset_found ports req₂ row senha₂ w')
          (reset_found-known req₂ row senha₂ w' mails known) in
      (
        (reset_found ports req₂ row senha₂ w').1,
        done,
        (reset_found-ok ports req₂ row senha₂ w' _ done).1,
      )
