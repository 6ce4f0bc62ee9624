-- ===== src/Auth/Login/Success.antt =====
-- What a login that returns tokens has checked and written.
use api_padrao.Prelude.{
  inl, inr, ℕ, String, Text, ◌≡◌, sym, ap, ◌∙◌, true, false, Option, some, List, ◌∷◌, arith, any,
  find, Option-cases, Bool-cases, ◌==◌, nat_eq, string_eq,
}
use mathlib.Core.Option
use api_padrao.Payload.{EmpresaAuth}
use api_padrao.Http.{ok}
use api_padrao.Database.{UsuarioRow, Database}
use api_padrao.Cache.{CacheMap, live}
use api_padrao.World.{World, Request, Ports}
use api_padrao.Tracker.{is_locked_now, after_success}
use api_padrao.Tracker.Frame.{SameTables, after_success-SameTables, after_success-profiles}
use api_padrao.Usuarios.Entity.{Usuario}
use api_padrao.Usuarios.Repository.{
  Credentials, to_credentials, has_email, find_by_email_with_credentials, found_profile,
}
use api_padrao.Auth.{
  LoginUsuarioDto, Tokens, clashes, new_row, tokens_for, history_row, record_history,
  generate_tokens, accepted, login_succeeded, login,
}
use api_padrao.Auth.Login.{checked, login-locked, login-rejected, login-accepted}

module _ (ports : Ports) where
  -- the row whose credentials were right
  pub record Authenticated (dto : LoginUsuarioDto) (w : World) : Type 0 where
    pub row : UsuarioRow
    pub hash : String
    pub found : find (has_email dto.email) w.db.usuarios ≡ some row
    pub stored : row.senha ≡ some hash
    pub matches : ports.compare dto.senha hash ≡ true
    pub given : (dto.senha == "") ≡ false

  checked-some :
      (dto : LoginUsuarioDto) (w : World) (c : Credentials)
      → checked ports dto w ≡ some c
      → (a : Authenticated dto w) × (c ≡ to_credentials a.row)
  unfolding find_by_email_with_credentials accepted
  checked-some dto w c e = elim (Option-cases (find (has_email dto.email) w.db.usuarios)) [
    | inl missing ↦ absurd (ground arith)
    | inr (row, found) ↦ elim (Option-cases row.senha) [
      | inl no_hash ↦
          let empty : (Option.get_or row.senha "" == "") ≡ true =
            ap (λ (h : Option String). Option.get_or h "" == "") no_hash in
          absurd (ground arith)
      | inr (hash, stored) ↦ (
        record {
          row = row;
          hash = hash;
          found = found;
          stored = stored;
          matches = ground arith;
          given = ground arith;
        },
        ground arith,
      )
    ]
  ]

  profile_id :
      (req : Request) (email : Text) (w : World) (u : Usuario) (row : UsuarioRow)
      → ((id : ℕ) (v : Usuario) → live req.now (w.profiles id) ≡ some v → v.id ≡ id)
      → find (has_email email) w.db.usuarios ≡ some row
      → (found_profile req email w).0 ≡ some u
      → (u.id ≡ row.id) × ((found_profile req email w).1.db ≡ w.db)
  unfolding found_profile
  profile_id req email w u row keyed found e = ground (arith, keyed row.id u)

  abbrev noted : Request → LoginUsuarioDto → Credentials → World → World
  noted req dto c w = record_history (history_row ports req c.id) (after_success req dto.email w)

  login_succeeded-ok :
      (req : Request) (dto : LoginUsuarioDto) (c : Credentials) (w : World) {tokens : Tokens}
      {w' : World}
      → login_succeeded ports req dto c w ≡ (ok tokens, w')
      → (u : Usuario) × ((found_profile req dto.email (noted req dto c w)).0 ≡ some u)
        × (generate_tokens ports req u.id u.email
              (some u.empresas)
              (found_profile req dto.email (noted req dto c w)).1
            ≡ (ok tokens, w'))
  login_succeeded-ok req dto c w e =
      elim (Option-cases (found_profile req dto.email (noted req dto c w)).0) [
        | inl missing ↦ absurd (ground arith)
        | inr (u, found) ↦ (u, found, ground arith)
      ]

  generate_tokens-ok :
      (req : Request) (id : ℕ) (email : Text) (empresas : Option (List EmpresaAuth)) (w : World)
      {tokens : Tokens} {w' : World}
      → generate_tokens ports req id email empresas w ≡ (ok tokens, w')
      → (any (clashes (new_row ports req id)) w.db.refresh_tokens ≡ false)
        × (w'.db.refresh_tokens ≡ new_row ports req id ∷ w.db.refresh_tokens)
        × (tokens ≡ tokens_for ports req id email empresas)
  unfolding generate_tokens
  generate_tokens-ok req id email empresas w e = ground arith

  -- what a login that returns tokens has written
  pub record LoggedIn (req : Request) (dto : LoginUsuarioDto) (w : World) (tokens : Tokens)
      (w' : World) : Type 0 where
    pub free : is_locked_now req dto.email w ≡ false
    pub authenticated : Authenticated dto w
    pub fresh : any (clashes (new_row ports req authenticated.row.id)) w.db.refresh_tokens ≡ false
    pub written :
        w'.db.refresh_tokens ≡ new_row ports req authenticated.row.id ∷ w.db.refresh_tokens
    pub returned : tokens.refresh_token ≡ req.raw_token

  abbrev pub IsKeyed : Request → World → Type 0
  IsKeyed req w = (id : ℕ) (v : Usuario) → live req.now (w.profiles id) ≡ some v → v.id ≡ id

  noted-same :
      (req : Request) (dto : LoginUsuarioDto) (c : Credentials) (w : World)
      → (SameTables (noted req dto c w).db w.db) × ((noted req dto c w).profiles ≡ w.profiles)
  unfolding record_history
  noted-same req dto c w =
      let same = after_success-SameTables req dto.email w in
      (
        record {
          usuarios = same.usuarios;
          vinculos = same.vinculos;
          refresh_tokens = same.refresh_tokens;
          reset_tokens = same.reset_tokens;
        },
        after_success-profiles req dto.email w,
      )

  login-ok_free :
      (req : Request) (dto : LoginUsuarioDto) (w : World) {tokens : Tokens} {w' : World}
      → login ports req dto w ≡ (ok tokens, w')
      → (is_locked_now req dto.email w ≡ false)
        × (c : Credentials) × (checked ports dto w ≡ some c)
        × (login_succeeded ports req dto c w ≡ (ok tokens, w'))
  login-ok_free req dto w e = elim (Bool-cases (is_locked_now req dto.email w)) [
    | inl locked ↦ absurd (ground (arith, login-locked ports req dto w locked))
    | inr free ↦ elim (Option-cases (checked ports dto w)) [
      | inl wrong ↦ absurd (ground (arith, login-rejected ports req dto w free wrong))
      | inr (c, right) ↦ (free, c, right, sym (login-accepted ports req dto w c free right) ∙ e)
    ]
  ]

  -- A login that returns tokens was not locked out, has found an undeleted user with the e-mail, and
  -- bcrypt has matched a given password with the stored hash. It has added one row, for that user,
  -- that holds the hash of the refresh token which it returns and clashes with none. (The profiles
  -- cache must hold users under their own ids.)
  pub login_sound :
      (req : Request) (dto : LoginUsuarioDto) (w : World) {tokens : Tokens} {w' : World}
      → IsKeyed req w
      → login ports req dto w ≡ (ok tokens, w')
      → LoggedIn req dto w tokens w'
  login_sound req dto w keyed e =
      let (free, c, right, done) = login-ok_free req dto w e in
      let (a, same_c) = checked-some dto w c right in
      let (u, found, generated) = login_succeeded-ok req dto c w done in
      let (same, profiles) = noted-same req dto c w in
      let (same_id, db) =
        profile_id req dto.email (noted req dto c w) u a.row
          (λ id v h.
            keyed id v (sym (ap (λ (p : CacheMap ℕ Usuario). live req.now (p id)) profiles) ∙ h))
          (ap (find (has_email dto.email)) same.usuarios ∙ a.found) found in
      let (fresh, written, returned) =
        generate_tokens-ok req u.id u.email (some u.empresas)
          (found_profile req dto.email (noted req dto c w)).1 generated in
      record {
        free = free;
        authenticated = a;
        fresh =
            rw (same_id, ap (λ (d : Database). d.refresh_tokens) db, same.refresh_tokens) at fresh;
        written =
            rw (same_id, ap (λ (d : Database). d.refresh_tokens) db, same.refresh_tokens) at
              written;
        returned = ap (λ (t : Tokens). t.refresh_token) returned;
      }
