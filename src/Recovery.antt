-- ===== src/Recovery.antt =====
-- src/auth/application/services/password-recovery.service.ts, over
-- src/auth/infrastructure/repositories/prisma-password-reset-token.repository.ts.
pub mod Forgot
pub mod Reset
pub mod Once
pub mod Race
use api_padrao.Prelude.{
  ℕ, ◌+◌, ◌*◌, String, Text, Bool, true, false, not, ◌&&◌, ◌||◌, Option, none, some, List, [], ◌∷◌,
  ◌++◌, any, find, update_where, ltb, ◌==◌, nat_eq, string_eq, if◌then◌else◌,
}
use Prim.Native.String
use mathlib.Core.Option
use api_padrao.Http.{HttpException, unauthorized, unexpected, token_de_reset_invalido, ok, err}
use api_padrao.Database.{UsuarioRow, RefreshToken, PasswordResetToken, Database}
use api_padrao.World.{World, Request, Ports, Mail, text, str, moment}
use api_padrao.Exec.{Exec, pure, raise, gets, modify, or_raise, raise_if, execute, ◌>>=◌, ◌>>◌}
use api_padrao.Usuarios.Entity.{Usuario}
use api_padrao.Usuarios.Repository.{is_none, find_by_email, find_one}
use api_padrao.Auth.{revoke_active_of, by_id}

abbrev pub token_ttl_ms : ℕ
token_ttl_ms = 60 * 60 * 1000

-- the e-mail sender: an e-mail that it does not raise on has been handed over
unfoldable pub send : Ports → Mail → Exec (Unit {0})
send ports mail w = elim (ports.send_failure mail) [
  | some e ↦ (err e, w)
  | none ↦ (ok tt, record w { mails = mail ∷ w.mails })
]

-- `where: { tokenHash, usedAt: null, expiresAt: { gt: new Date() } }`
abbrev pub is_valid_hash : ℕ → String → PasswordResetToken → Bool
is_valid_hash now h t = t.token_hash == h && is_none t.used_at && ltb now t.expires_at

unfoldable pub find_valid_by_hash : ℕ → String → Database → Option PasswordResetToken
find_valid_by_hash now h db = find (is_valid_hash now h) db.reset_tokens

abbrev pub use_at : ℕ → PasswordResetToken → PasswordResetToken
use_at now t = record t { used_at = some now }

abbrev pub is_unused_of : ℕ → PasswordResetToken → Bool
is_unused_of user_id t = t.user_id == user_id && is_none t.used_at

unfoldable pub invalidate_all_for_user : ℕ → ℕ → World → World
invalidate_all_for_user now user_id w = record w {
  db = record w.db {
    reset_tokens = update_where (is_unused_of user_id) (use_at now) w.db.reset_tokens;
  };
}

-- the id and the hash are unique columns
abbrev pub clashes : PasswordResetToken → PasswordResetToken → Bool
clashes row t = t.id == row.id || t.token_hash == row.token_hash

unfoldable pub create_reset_token : PasswordResetToken → Exec (Unit {0})
create_reset_token row w =
    if any (clashes row) w.db.reset_tokens
    then (err (unexpected 2002), w)
    else (ok tt, record w { db = record w.db { reset_tokens = row ∷ w.db.reset_tokens } })

abbrev pub set_senha : ℕ → String → UsuarioRow → UsuarioRow
set_senha now hash u = record u { senha = some hash; updated_at = now }

-- `tx.usuario.update`, which raises where no row has the id
unfoldable pub update_senha : ℕ → ℕ → String → Exec (Unit {0})
update_senha now user_id hash w =
    if any (by_id user_id) w.db.usuarios
    then (
      ok tt,
      record w {
        db = record w.db {
          usuarios = update_where (by_id user_id) (set_senha now hash) w.db.usuarios;
        };
      },
    )
    else (err (unexpected 2025), w)

abbrev pub has_id : String → PasswordResetToken → Bool
has_id id t = t.id == id

unfoldable pub mark_used : ℕ → String → World → World
mark_used now id w = record w {
  db = record w.db { reset_tokens = update_where (has_id id) (use_at now) w.db.reset_tokens };
}

abbrev pub reset_rest : Request → PasswordResetToken → Exec (Unit {0})
reset_rest req token = do
  modify (revoke_active_of req.now token.user_id)
  modify (mark_used req.now token.id)

-- the writes of the transaction
unfoldable pub reset_work : Request → PasswordResetToken → String → Exec (Unit {0})
unfolding update_senha revoke_active_of mark_used
reset_work req token hash = do update_senha req.now token.user_id hash; reset_rest req token

module _ (ports : Ports) where
  abbrev pub reset_row : Request → ℕ → PasswordResetToken
  reset_row req user_id = record {
    id = req.row_id;
    token_hash = ports.hash_token req.raw_token;
    user_id = user_id;
    expires_at = req.now + token_ttl_ms;
    used_at = none;
    created_at = req.now;
  }

  abbrev pub reset_url : Request → String
  reset_url req =
      String.◌++◌ (Option.get_or ports.frontend_url "http://localhost:3000")
        (String.◌++◌ "/reset-password?token=" req.raw_token)

  abbrev pub reset_mail : Request → Usuario → Mail
  reset_mail req user = record {
    template = "auth.password_reset";
    to = user.email;
    variables =
        ("nome", text user.email) ∷ ("link", str (reset_url req)) ∷ ("validade", str "1 hora") ∷ [];
  }

  abbrev pub issue : Request → Usuario → Exec (Unit {0})
  issue req user = do
    modify (invalidate_all_for_user req.now user.id)
    create_reset_token (reset_row req user.id)
    send ports (reset_mail req user)

  abbrev pub forgot_user : Request → Option Usuario → Exec (Unit {0})
  forgot_user req none = pure tt
  forgot_user req (some user) = if not user.ativo then pure tt else issue req user

  unfoldable pub forgot_password : Request → Text → Exec (Unit {0})
  unfolding send invalidate_all_for_user create_reset_token
  forgot_password req email = do user ← gets (λ w. find_by_email email w.db); forgot_user req user

  abbrev pub changed_mail : Request → Usuario → Mail
  changed_mail req usuario = record {
    template = "usuarios.password_changed";
    to = usuario.email;
    variables =
        ("nome", text usuario.email)
        ∷ ("dataHora", moment req.now)
        ∷ ("ip", str "desconhecido")
        ∷ [];
  }

  abbrev pub notify_changed : Request → Option Usuario → Exec (Unit {0})
  notify_changed req none = pure tt
  notify_changed req (some usuario) = send ports (changed_mail req usuario)

  abbrev pub notify_user : Request → ℕ → Exec (Unit {0})
  notify_user req id = do usuario ← gets (λ w. find_one id false w.db); notify_changed req usuario

  -- what follows the lookup of the token
  unfoldable pub reset_found : Request → PasswordResetToken → String → Exec (Unit {0})
  unfolding execute reset_work send
  reset_found req token nova_senha = do
    execute (reset_work req token (ports.hash_password nova_senha))
    notify_user req token.user_id

  unfoldable pub reset_password : Request → String → String → Exec (Unit {0})
  unfolding reset_found
  reset_password req token nova_senha = do
    found ← gets (λ w. find_valid_by_hash req.now (ports.hash_token token) w.db)
    row ← or_raise found (unauthorized token_de_reset_invalido)
    reset_found req row nova_senha
