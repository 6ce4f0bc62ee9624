-- ===== src/Recovery/Forgot.antt =====
-- The request of a password reset.
use api_padrao.Prelude.{
  inl, inr, ℕ, ◌+◌, String, Text, ◌≡◌, refl, ap, ◌∙◌, Bool, true, false, ◌||◌, none, some, List, [],
  ◌∷◌, arith, any, find, count_where, update_where, ltb, Option-cases, Bool-cases, ◌==◌, nat_eq,
  string_eq, eq_iff, if◌then◌else◌, count-update_where, any-update_where,
}
use api_padrao.Http.{Result, ok}
use api_padrao.Database.{PasswordResetToken}
use api_padrao.World.{World, Request, Ports, Mail}
use api_padrao.Exec.{>>=-step}
use api_padrao.Usuarios.Entity.{Usuario}
use api_padrao.Usuarios.Repository.{find_by_email}
use api_padrao.Recovery.{
  is_valid_hash, is_unused_of, use_at, find_valid_by_hash, invalidate_all_for_user,
  create_reset_token, issue, send, clashes, token_ttl_ms, reset_row, reset_mail, forgot_password,
}

-- no row has the id or the hash that the request draws
abbrev pub IsFresh : Ports → Request → World → Type 0
IsFresh ports req w =
    any
      (λ (t : PasswordResetToken).
        t.id == req.row_id || t.token_hash == ports.hash_token req.raw_token)
      w.db.reset_tokens
    ≡ false

-- a hash that no row has finds none, also after rows are marked as used
no-hash :
    (h id : String) (q : PasswordResetToken → Bool) (now later : ℕ) (rows : List PasswordResetToken)
    → any (λ (t : PasswordResetToken). t.id == id || t.token_hash == h) rows ≡ false
    → find (is_valid_hash later h) (update_where q (use_at now) rows) ≡ none
unfolding any find update_where
no-hash h id q now later [] e = refl
no-hash h id q now later (t ∷ ts) e = ground (arith, no-hash h id q now later ts)

module _ (ports : Ports) where
  abbrev issued : Request → Usuario → World → World
  issued req u w = record w {
    db = record w.db {
      reset_tokens =
          reset_row ports req u.id
          ∷ update_where (is_unused_of u.id) (use_at req.now) w.db.reset_tokens;
    };
  }

  created :
      (req : Request) (u : Usuario) (w : World)
      → IsFresh ports req w
      → create_reset_token (reset_row ports req u.id) (invalidate_all_for_user req.now u.id w)
        ≡ (ok tt, issued req u w)
  unfolding invalidate_all_for_user create_reset_token
  created req u w fresh = rw (
      any-update_where (clashes (reset_row ports req u.id)) (is_unused_of u.id) (use_at req.now)
        w.db.reset_tokens (λ t. refl)
      ∙ fresh)

  issue-sent :
      (req : Request) (u : Usuario) (w : World)
      → IsFresh ports req w
      → issue ports req u w ≡ send ports (reset_mail ports req u) (issued req u w)
  issue-sent req u w fresh =
      >>=-step (create_reset_token (reset_row ports req u.id))
        (λ _. send ports (reset_mail ports req u)) (invalidate_all_for_user req.now u.id w)
        (created req u w fresh)

  send-db : (m : Mail) (w : World) → (send ports m w).1.db ≡ w.db
  unfolding send
  send-db m w = ground arith

  forgot-issued :
      (req : Request) (email : Text) (w : World) (u : Usuario)
      → find_by_email email w.db ≡ some u
      → u.ativo ≡ true
      → IsFresh ports req w
      → (forgot_password ports req email w).1.db ≡ (issued req u w).db
  unfolding forgot_password
  forgot-issued req email w u found ativo fresh =
      rw (found, forgot_password, ativo)
        (ap (λ (s : Result (Unit {0}) × World). s.1.db) (issue-sent req u w fresh) ∙ send-db _ _)

  -- After a request for an active user exactly one of the user's tokens is unused, and the hash of
  -- the raw token finds it for one hour and not after that, whether the e-mail was sent or not.
  pub forgot_password_one_token :
      (req : Request) (email : Text) (w : World) (u : Usuario)
      → find_by_email email w.db ≡ some u
      → u.ativo ≡ true
      → IsFresh ports req w
      → (count_where (is_unused_of u.id) (forgot_password ports req email w).1.db.reset_tokens ≡ 1)
        × ((later : ℕ)
            → find_valid_by_hash later
                (ports.hash_token req.raw_token)
                (forgot_password ports req email w).1.db
              ≡ (if ltb later (req.now + token_ttl_ms)
                  then some (reset_row ports req u.id)
                  else none))
  unfolding find_valid_by_hash find count_where
  forgot_password_one_token req email w u found ativo fresh =
      let db = forgot-issued req email w u found ativo fresh in
      let others =
        count-update_where (is_unused_of u.id) (use_at req.now) w.db.reset_tokens
          (λ t h. ground arith) in
      (
        rw db (ground arith),
        λ later. rw db (
            ground (
              arith,
              eq_iff (ports.hash_token req.raw_token) (ports.hash_token req.raw_token),
              no-hash (ports.hash_token req.raw_token) req.row_id (is_unused_of u.id) req.now later
                  w.db.reset_tokens fresh,
            )),
      )

  -- The answer does not tell whether the e-mail belongs to a user: it is the same for every e-mail
  -- (where the e-mail sender does not raise).
  pub forgot_password_silent :
      (req : Request) (email : Text) (w : World)
      → ((m : Mail) → ports.send_failure m ≡ none)
      → IsFresh ports req w
      → (forgot_password ports req email w).0 ≡ ok tt
  unfolding forgot_password send
  forgot_password_silent req email w mails fresh = elim (Option-cases (find_by_email email w.db)) [
    | inl unknown ↦ rw (unknown, forgot_password) refl
    | inr (u, found) ↦ elim (Bool-cases u.ativo) [
      | inl ativo ↦
          rw (found, forgot_password, ativo)
            (ap (λ (s : Result (Unit {0}) × World). s.0) (issue-sent req u w fresh)
              ∙ rw (mails (reset_mail ports req u), send) refl)
      | inr inativo ↦ rw (found, forgot_password, inativo) refl
    ]
  ]
