-- ===== src/Auth/Refresh.antt =====
-- What `refreshTokens` guarantees: rotation, atomicity, and what becomes of a token used twice.
use api_padrao.Prelude.{
  ◌≤◌, String, ◌≡◌, true, false, Option, none, some, List, ◌∷◌, arith, find, update_where, inl, inr,
  Option-cases, string_eq, any,
}
use api_padrao.Http.{forbidden, atividade_suspeita, ok, err, HttpException}
use api_padrao.Database.{UsuarioRow, RefreshToken}
use api_padrao.World.{World, Request, Ports}
use api_padrao.Usuarios.Repository.{is_none, empresas_of}
use api_padrao.Auth.{
  Tokens, clashes, has_id, by_hash, by_id, revoke_at, new_row, tokens_for, refresh_tokens,
}

-- the row with this hash is there, and revoked
pub record SpentIn (h : String) (rows : List RefreshToken) : Type 0 where
  pub row : RefreshToken
  pub found : find (by_hash h) rows ≡ some row
  pub revoked : is_none row.revoked_at ≡ false

module _ (ports : Ports) where
  abbrev stored_as : String → World → Option RefreshToken
  stored_as token w = find (by_hash (ports.hash_token token)) w.db.refresh_tokens

  abbrev pub IsSpent : String → World → Type 0
  IsSpent token w = SpentIn (ports.hash_token token) w.db.refresh_tokens

  -- what a call that returns tokens has found, and what it has written
  pub record Rotated (req : Request) (token : String) (w : World) (tokens : Tokens) (w' : World)
      : Type 0 where
    pub row : RefreshToken
    pub user : UsuarioRow
    pub found : stored_as token w ≡ some row
    pub unrevoked : row.revoked_at ≡ none
    pub unexpired : req.now ≤ row.expires_at
    pub owner : find (by_id row.user_id) w.db.usuarios ≡ some user
    pub ativo : user.ativo ≡ true
    pub undeleted : user.deleted_at ≡ none
    pub fresh :
        any
          (clashes (new_row ports req row.user_id))
          (update_where (has_id row.id) (revoke_at req.now) w.db.refresh_tokens)
        ≡ false
    pub returned :
        tokens
        ≡ tokens_for ports req row.user_id user.email (some (empresas_of user.id w.db.vinculos))
    pub written :
        w'.db.refresh_tokens
        ≡ new_row ports req row.user_id
          ∷ update_where (has_id row.id) (revoke_at req.now) w.db.refresh_tokens

  -- A call that returns tokens has found a row with the hash of the token that is not revoked, not
  -- expired, and owned by an active user; it has revoked that row and stored a new one that clashes
  -- with none, and what it returns is for that user.
  pub refresh_rotates :
      (req : Request) (token : String) (w w' : World) (tokens : Tokens)
      → refresh_tokens ports req token w ≡ (ok tokens, w')
      → Rotated req token w tokens w'
  unfolding refresh_tokens
  refresh_rotates req token w w' tokens e = elim (Option-cases (stored_as token w)) [
    | inl missing ↦ absurd (ground arith)
    | inr (row, found) ↦ elim (Option-cases (find (by_id row.user_id) w.db.usuarios)) [
      | inl missing ↦ absurd (ground arith)
      | inr (user, owner) ↦ record {
        row = row;
        user = user;
        found = found;
        unrevoked = ground arith;
        unexpired = ground arith;
        owner = owner;
        ativo = ground arith;
        undeleted = ground arith;
        fresh = ground arith;
        returned = ground arith;
        written = ground arith;
      }
    ]
  ]

  -- A call that raises leaves the world as it was.
  pub refresh-err :
      (req : Request) (token : String) (w : World) {w' : World} {e : HttpException}
      → refresh_tokens ports req token w ≡ (err e, w')
      → w' ≡ w
  unfolding refresh_tokens
  refresh-err req token w h = elim (Option-cases (stored_as token w)) [
    | inl missing ↦ ground arith
    | inr (row, found) ↦ elim (Option-cases (find (by_id row.user_id) w.db.usuarios)) [
      | inl missing ↦ ground arith
      | inr (user, owner) ↦ ground arith
    ]
  ]

  -- A token that was revoked before is refused with the status of suspicious activity, and the
  -- world stays as it was: the revocations that the call makes before it raises do not last.
  pub refresh-spent :
      (req : Request) (token : String) (w : World)
      → IsSpent token w
      → refresh_tokens ports req token w ≡ (err (forbidden atividade_suspeita), w)
  unfolding refresh_tokens
  refresh-spent req token w s = ground (arith, s.found, s.revoked)
