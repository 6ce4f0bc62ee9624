-- ===== src/Sessions/SingleUse.antt =====
-- A refresh token is used once, whatever requests follow.
use api_padrao.Prelude.{
  ℕ, String, ◌≡◌, refl, sym, ap, ◌∙◌, some, List, [], ◌∷◌, arith, find, update_where,
  find-update_where, string_eq, nat_eq, eq_iff, if◌then◌else◌,
}
use api_padrao.Http.{ok, err, forbidden, atividade_suspeita}
use api_padrao.Database.{RefreshToken, PasswordResetToken}
use api_padrao.World.{World, Request, Ports}
use api_padrao.Auth.{Tokens, new_row, by_hash, has_id, is_active_of, revoke_at, refresh_tokens}
use api_padrao.Auth.Refresh.{SpentIn, IsSpent, Rotated, refresh_rotates, refresh-spent}
use api_padrao.Recovery.{find_valid_by_hash, reset_password}
use api_padrao.Recovery.Reset.{reset-ok}
use api_padrao.Sessions.{Action, log_in, refresh, ask_reset, reset, patch, act, act_all}
use api_padrao.Sessions.Table.{Evolves, evolves-SpentIn, spent-issued}
use api_padrao.Sessions.Handlers.{login-Keeps, refresh-Keeps}
use api_padrao.Sessions.Writers.{forgot-Keeps, reset-Keeps, update-Keeps}

module _ (ports : Ports) where
  act-Evolves :
      (a : Action) (w : World) → Evolves w.db.refresh_tokens (act ports a w).db.refresh_tokens
  unfolding act
  act-Evolves (log_in req dto) w = (login-Keeps ports req dto).keeps w
  act-Evolves (refresh req token) w = (refresh-Keeps ports req token).keeps w
  act-Evolves (ask_reset req email) w = (forgot-Keeps ports req email).keeps w
  act-Evolves (reset req token nova_senha) w = (reset-Keeps ports req token nova_senha).keeps w
  act-Evolves (patch req id dto logado empresa_id) w =
      (update-Keeps ports req id dto logado empresa_id).keeps w

  act_all-IsSpent :
      (actions : List Action) (token : String) (w : World)
      → IsSpent ports token w
      → IsSpent ports token (act_all ports actions w)
  unfolding act_all
  act_all-IsSpent [] token w s = s
  act_all-IsSpent (a ∷ more) token w s =
      act_all-IsSpent more token (act ports a w) (evolves-SpentIn s (act-Evolves a w))

  -- the token that a refresh was called with
  Rotated-IsSpent :
      (req : Request) (token : String) (w w' : World) (tokens : Tokens)
      → Rotated ports req token w tokens w'
      → IsSpent ports token w'
  Rotated-IsSpent req token w w' tokens r =
      let h = ports.hash_token token in
      let rows = update_where (has_id r.row.id) (revoke_at req.now) w.db.refresh_tokens in
      let spent : SpentIn h rows = record {
        row = revoke_at req.now r.row;
        found =
            find-update_where (by_hash h) (has_id r.row.id) (revoke_at req.now) w.db.refresh_tokens
              (λ t. refl)
            ∙ ground (arith, r.found, eq_iff r.row.id r.row.id);
        revoked = refl;
      } in
      rw (r.written) (spent-issued h (new_row ports req r.row.user_id) rows spent r.fresh)

  -- A refresh token is used once: after a refresh that returned tokens, and after any requests of
  -- login, refresh, password recovery and PATCH in any order, a refresh with the same token is
  -- refused as suspicious activity and changes nothing.
  pub refresh_once :
      (req later : Request) (token : String) (w w' : World) (tokens : Tokens)
      (actions : List Action)
      → refresh_tokens ports req token w ≡ (ok tokens, w')
      → refresh_tokens ports later token (act_all ports actions w')
        ≡ (err (forbidden atividade_suspeita), act_all ports actions w')
  refresh_once req later token w w' tokens actions e =
      refresh-spent ports later token (act_all ports actions w') (
        act_all-IsSpent actions token w'
          (Rotated-IsSpent req token w w' tokens (refresh_rotates ports req token w w' tokens e)))

  revoked-IsSpent :
      (now user_id : ℕ) (old : String) (t : RefreshToken) (w w' : World)
      → find (by_hash (ports.hash_token old)) w.db.refresh_tokens ≡ some t
      → t.user_id ≡ user_id
      → w'.db.refresh_tokens
        ≡ update_where (is_active_of user_id) (revoke_at now) w.db.refresh_tokens
      → IsSpent ports old w'
  revoked-IsSpent now user_id old t w w' found same written = record {
    row = if is_active_of user_id t then revoke_at now t else t;
    found =
        ap (find (by_hash (ports.hash_token old))) written
        ∙ find-update_where (by_hash (ports.hash_token old)) (is_active_of user_id) (revoke_at now)
            w.db.refresh_tokens (λ u. refl)
        ∙ ground (arith, found);
    revoked = ground (arith, same);
  }

  -- A password reset ends the sessions of its user: after a reset that returned, and after any
  -- further requests, a refresh with any token that was stored for the user before the reset is
  -- refused as suspicious activity.
  pub reset_ends_sessions :
      (req later : Request) (token nova_senha old : String) (row : PasswordResetToken)
      (t : RefreshToken) (w w' : World) (actions : List Action)
      → find_valid_by_hash req.now (ports.hash_token token) w.db ≡ some row
      → find (by_hash (ports.hash_token old)) w.db.refresh_tokens ≡ some t
      → t.user_id ≡ row.user_id
      → reset_password ports req token nova_senha w ≡ (ok tt, w')
      → refresh_tokens ports later old (act_all ports actions w')
        ≡ (err (forbidden atividade_suspeita), act_all ports actions w')
  reset_ends_sessions req later token nova_senha old row t w w' actions valid found same e =
      let r = reset-ok ports req token nova_senha w w' e in
      let one : r.row ≡ row = cc (r.found) in
      let owner : t.user_id ≡ r.row.user_id =
        same ∙ sym (ap (λ (p : PasswordResetToken). p.user_id) one) in
      refresh-spent ports later old (act_all ports actions w') (
        act_all-IsSpent actions old w'
          (revoked-IsSpent req.now r.row.user_id old t w w' found owner r.tokens))
