-- ===== src/Recovery/Once.antt =====
-- A token of a password reset, used twice one after the other.
use api_padrao.Prelude.{
  inl, inr, ℕ, String, ◌≡◌, refl, ap, true, false, none, some, List, [], ◌∷◌, arith, any, find,
  update_where, Bool-cases, ◌==◌, nat_eq, string_eq, eq_iff, find-holds, any-find,
}
use api_padrao.Http.{unauthorized, token_de_reset_invalido, ok, err}
use api_padrao.Database.{PasswordResetToken}
use api_padrao.World.{World, Request, Ports}
use api_padrao.Recovery.{is_valid_hash, find_valid_by_hash, use_at, has_id, reset_password}
use api_padrao.Recovery.Reset.{reset-ok}

-- `tokenHash` is a unique column.
abbrev pub HashUnique : List PasswordResetToken → Type 0
HashUnique [] = Unit
HashUnique (t ∷ ts) =
    (any (λ (s : PasswordResetToken). s.token_hash == t.token_hash) ts ≡ false) × HashUnique ts

-- where no row has the hash, none is valid for it, and none becomes so by being used
none-valid :
    (h : String) (id : String) (now later : ℕ) (rows : List PasswordResetToken)
    → any (λ (s : PasswordResetToken). s.token_hash == h) rows ≡ false
    → find (is_valid_hash later h) (update_where (has_id id) (use_at now) rows) ≡ none
unfolding any find update_where
none-valid h id now later [] e = refl
none-valid h id now later (t ∷ ts) e = ground (arith, none-valid h id now later ts)

-- After the row that a hash found is marked, the hash finds no valid row at any time.
used-find :
    (h : String) (now at later : ℕ) (rows : List PasswordResetToken) (row : PasswordResetToken)
    → HashUnique rows
    → find (is_valid_hash now h) rows ≡ some row
    → find (is_valid_hash later h) (update_where (has_id row.id) (use_at at) rows) ≡ none
unfolding find update_where
used-find h now at later [] row unique e = refl
used-find h now at later (t ∷ ts) row (alone, unique) e =
    elim (Bool-cases (is_valid_hash now h t)) [
      | inl valid ↦
          let here : t ≡ row = ground arith in
          let hash : t.token_hash ≡ h = (eq_iff t.token_hash h).0 (ground arith) in
          let marked : (t.id == row.id) ≡ true =
            (eq_iff t.id row.id).1 (ap (λ (s : PasswordResetToken). s.id) here) in
          let rest = none-valid h row.id at later ts (rw hash at alone) in ground arith
      | inr invalid ↦
          let there : find (is_valid_hash now h) ts ≡ some row = ground arith in
          let other =
            any-find (λ (s : PasswordResetToken). s.token_hash == t.token_hash)
              (is_valid_hash now h) ts alone there in
          let valid = find-holds (is_valid_hash now h) ts there in
          ground (
            arith,
            used-find h now at later ts row unique there,
            eq_iff row.token_hash t.token_hash,
            eq_iff row.token_hash h,
            eq_iff t.token_hash h,
          )
    ]

module _ (ports : Ports) where
  -- A token resets the password once: after a reset that returned, every other one with the same
  -- token is refused and changes nothing.
  pub reset_password_once :
      (req later : Request) (token nova_senha outra : String) (w w' : World)
      → HashUnique w.db.reset_tokens
      → reset_password ports req token nova_senha w ≡ (ok tt, w')
      → reset_password ports later token outra w' ≡ (err (unauthorized token_de_reset_invalido), w')
  unfolding reset_password find_valid_by_hash
  reset_password_once req later token nova_senha outra w w' unique e =
      let r = reset-ok ports req token nova_senha w w' e in
      let gone =
        used-find (ports.hash_token token) req.now req.now later.now w.db.reset_tokens r.row unique
          r.found in
      ground (arith, r.used)
