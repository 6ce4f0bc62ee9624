-- ===== src/Auth/Login.antt =====
-- `login` against guessed passwords.
pub mod Success
use api_padrao.Prelude.{
  inl, inr, ℕ, zero, suc, ◌+◌, ◌≤◌, ◌<◌, String, Text, ◌≡◌, refl, sym, ap, ◌∙◌, Bool, true, false,
  not, ◌||◌, Option, none, some, List, [], ◌∷◌, arith, any, find, length, All, leb, Option-cases,
  Bool-cases, to_lower_case, to_lower_case_idem, find-holds, ◌==◌, nat_eq, eq_iff, if◌then◌else◌,
}
use mathlib.Core.Option
use api_padrao.Http.{
  HttpException, Result, unauthorized, too_many_requests, conta_bloqueada, credenciais_invalidas,
  ok, err,
}
use api_padrao.Database.{UsuarioRow, RefreshToken, Database}
use api_padrao.Cache.{Stored, CacheMap, live}
use api_padrao.World.{World, Request, Ports}
use api_padrao.Exec.{Exec, >>=-ok}
use api_padrao.Tracker.{lock_ttl_ms, max_attempts, is_locked_now, after_failure, after_success}
use api_padrao.Tracker.Lockout.{
  Attempt, IsOn, IsFresh, InTime, fail_all, entry, record_failure-live, record_failure-fresh,
  is_locked-live, fail_all-entry,
}
use api_padrao.Tracker.Frame.{
  after_failure-SameTables, after_success-SameTables, after_success-profiles,
}
use api_padrao.Usuarios.Entity.{Usuario}
use api_padrao.Usuarios.Repository.{
  Credentials, to_credentials, map_to_entity, has_email, find_by_email,
  find_by_email_with_credentials, found_profile,
}
use api_padrao.Auth.{
  LoginUsuarioDto, Tokens, new_row, tokens_for, history_row, record_history, generate_tokens,
  create_refresh_token, accepted, login_succeeded, login,
}

module _ (ports : Ports) where
  abbrev pub checked : LoginUsuarioDto → World → Option Credentials
  checked dto w = accepted ports (find_by_email_with_credentials dto.email w.db) dto.senha

  pub login-locked :
      (req : Request) (dto : LoginUsuarioDto) (w : World)
      → is_locked_now req dto.email w ≡ true
      → login ports req dto w ≡ (err (too_many_requests conta_bloqueada), w)
  unfolding login
  login-locked req dto w locked = rw (locked, login) refl

  pub login-rejected :
      (req : Request) (dto : LoginUsuarioDto) (w : World)
      → is_locked_now req dto.email w ≡ false
      → checked dto w ≡ none
      → login ports req dto w
        ≡ (err (unauthorized credenciais_invalidas), after_failure req dto.email w)
  unfolding login
  login-rejected req dto w free wrong = rw (free, wrong, login) refl

  pub login-accepted :
      (req : Request) (dto : LoginUsuarioDto) (w : World) (c : Credentials)
      → is_locked_now req dto.email w ≡ false
      → checked dto w ≡ some c
      → login ports req dto w ≡ login_succeeded ports req dto c w
  unfolding login
  login-accepted req dto w c free right = rw (free, right, login) refl

  -- a login on the account of `email` whose credentials are wrong among these users
  abbrev pub IsGuess : Text → World → Request × LoginUsuarioDto → Type 0
  IsGuess email w (req, dto) = IsOn email (req, dto.email) × (checked dto w ≡ none)

  unfoldable pub login_all : List (Request × LoginUsuarioDto) → World → World
  unfolding login
  login_all [] w = w
  login_all ((req, dto) ∷ more) w = login_all more (login ports req dto w).1

  abbrev pub GuessesInTime : ℕ → List (Request × LoginUsuarioDto) → ℕ → Type 0
  GuessesInTime last [] probe = probe < last + lock_ttl_ms
  GuessesInTime last ((req, _) ∷ more) probe =
      (req.now < last + lock_ttl_ms) × GuessesInTime req.now more probe

  -- The credentials that are found depend on the table of users alone.
  checked-same :
      (dto : LoginUsuarioDto) (a b : World)
      → a.db.usuarios ≡ b.db.usuarios
      → checked dto a ≡ checked dto b
  unfolding find_by_email_with_credentials
  checked-same dto a b e = rw e refl

  guesses-same :
      (email : Text) (a b : World) (tried : List (Request × LoginUsuarioDto))
      → a.db.usuarios ≡ b.db.usuarios
      → All (IsGuess email a) tried
      → All (IsGuess email b) tried
  guesses-same email a b [] e h = tt
  guesses-same email a b ((req, dto) ∷ more) e ((on, wrong), h) =
      ((on, sym (checked-same dto a b e) ∙ wrong), guesses-same email a b more e h)

  free-live :
      (email typed : Text) (req : Request) (w : World) (n : ℕ)
      → IsOn email (req, typed)
      → live req.now (w.attempts (to_lower_case email)) ≡ some n
      → n < 5
      → is_locked_now req typed w ≡ false
  free-live email typed req w n on e few =
      let locked = is_locked-live email (req, typed) w n on e in ground arith

  locked-live :
      (email typed : Text) (req : Request) (w : World) (n : ℕ)
      → IsOn email (req, typed)
      → live req.now (w.attempts (to_lower_case email)) ≡ some n
      → 5 ≤ n
      → is_locked_now req typed w ≡ true
  locked-live email typed req w n on e many =
      let locked = is_locked-live email (req, typed) w n on e in ground arith

  free-fresh :
      (email typed : Text) (req : Request) (w : World)
      → IsOn email (req, typed)
      → IsFresh email req.now w
      → is_locked_now req typed w ≡ false
  unfolding is_locked_now
  free-fresh email typed req w on e = ground (arith, to_lower_case_idem email)

  rejected-usuarios :
      (req : Request) (dto : LoginUsuarioDto) (w : World)
      → is_locked_now req dto.email w ≡ false
      → checked dto w ≡ none
      → w.db.usuarios ≡ (login ports req dto w).1.db.usuarios
  rejected-usuarios req dto w free wrong =
      rw (login-rejected req dto w free wrong)
        (sym (after_failure-SameTables req dto.email w).usuarios)

  login_all-entry :
      (email : Text) (tried : List (Request × LoginUsuarioDto)) (w : World) (n last probe : ℕ)
      → w.attempts (to_lower_case email) ≡ entry n last
      → All (IsGuess email w) tried
      → GuessesInTime last tried probe
      → n + length tried ≤ 5
      → live probe ((login_all tried w).attempts (to_lower_case email)) ≡ some (n + length tried)
  unfolding login_all
  login_all-entry email [] w n last probe e h t few = ground arith
  login_all-entry email ((req, dto) ∷ more) w n last probe e ((on, wrong), h) (soon, t) few =
      let live_n : live req.now (w.attempts (to_lower_case email)) ≡ some n = ground arith in
      let free = free-live email dto.email req w n on live_n (omega arith) in
      let counted : (login ports req dto w).1.attempts (to_lower_case email)
          ≡ entry (n + 1) req.now =
        rw (login-rejected req dto w free wrong)
          (record_failure-live email dto.email req w n on live_n) in
      let rest =
        login_all-entry email more (login ports req dto w).1 (n + 1) req.now probe counted
          (guesses-same email w (login ports req dto w).1 more
            (rejected-usuarios req dto w free wrong) h)
          t (omega arith) in
      ground arith

  -- After five logins with wrong credentials on an account that had no live count, each within 15
  -- minutes of the one before it, while Redis answers, a login within 15 minutes of the fifth is
  -- refused as locked, with the right password too, and changes nothing.
  pub brute_force_blocked :
      (email : Text) (req : Request) (dto : LoginUsuarioDto)
      (more : List (Request × LoginUsuarioDto)) (last : Request) (right : LoginUsuarioDto)
      (w : World)
      → IsFresh email req.now w
      → All (IsGuess email w) ((req, dto) ∷ more)
      → length more ≡ 4
      → IsOn email (last, right.email)
      → GuessesInTime req.now more last.now
      → login ports last right (login_all ((req, dto) ∷ more) w)
        ≡ (err (too_many_requests conta_bloqueada), login_all ((req, dto) ∷ more) w)
  unfolding login_all
  brute_force_blocked email req dto more last right w fresh ((on, wrong), h) four on_last t =
      let free = free-fresh email dto.email req w on fresh in
      let counted : (login ports req dto w).1.attempts (to_lower_case email) ≡ entry 1 req.now =
        rw (login-rejected req dto w free wrong)
          (record_failure-fresh email dto.email req w on fresh) in
      let full =
        login_all-entry email more (login ports req dto w).1 1 req.now last.now counted
          (guesses-same email w (login ports req dto w).1 more
            (rejected-usuarios req dto w free wrong) h)
          t (omega arith) in
      login-locked last right (login_all more (login ports req dto w).1)
        (locked-live email right.email last _ (1 + length more) on_last full (omega arith))
