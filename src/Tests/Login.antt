-- ===== src/Tests/Login.antt =====
-- Logins.
use api_padrao.Prelude.{ℕ, ◌≡◌, refl, arith, List, [], ◌∷◌}
use api_padrao.Http.{err, too_many_requests, conta_bloqueada}
use api_padrao.World.{World, Request}
use api_padrao.Auth.{LoginUsuarioDto, Tokens, login}
use api_padrao.Auth.Login.{login_all, brute_force_blocked}
use api_padrao.Auth.Login.Success.{LoggedIn, login_sound}
use api_padrao.Tests.Data.{ports, request, ana, ana_in_capitals, world, dto}

abbrev tokens : Tokens
tokens = record { access_token = "jwt"; refresh_token = "novo" }

abbrev logged_in : World
logged_in = (login ports (request 10 "novo") (dto "certa") world).1

login_sound_example : LoggedIn ports (request 10 "novo") (dto "certa") world tokens logged_in
unfolding login api_padrao.Tracker.is_locked_now
    api_padrao.Usuarios.Repository.find_by_email_with_credentials api_padrao.Prelude.find
    api_padrao.Prelude.text_beq api_padrao.Usuarios.Repository.found_profile
    api_padrao.Tracker.after_success api_padrao.Prelude.any
login_sound_example =
    login_sound ports (request 10 "novo") (dto "certa") world {tokens = tokens} {w' = logged_in}
      (λ id v h. cc) refl

-- the e-mail is typed in capitals once
abbrev more_guesses : List (Request × LoginUsuarioDto)
more_guesses =
    (request 20 "b", record (dto "errada") { email = ana_in_capitals })
    ∷ (request 30 "c", dto "errada")
    ∷ (request 40 "d", dto "")
    ∷ (request 50 "e", dto "errada")
    ∷ []

abbrev guessed : World
guessed = login_all ports ((request 10 "a", dto "errada") ∷ more_guesses) world

brute_force_blocked_example :
    login ports (request 60 "x") (dto "certa") guessed
    ≡ (err (too_many_requests conta_bloqueada), guessed)
unfolding api_padrao.Auth.accepted api_padrao.Usuarios.Repository.find_by_email_with_credentials
    api_padrao.Prelude.find api_padrao.Prelude.text_beq api_padrao.Prelude.to_lower_case
brute_force_blocked_example =
    brute_force_blocked ports ana (request 10 "a") (dto "errada") more_guesses (request 60 "x")
      (dto "certa") world refl
      (
        (((refl, refl), refl), refl),
        (
          (((refl, refl), refl), refl),
          (
            (((refl, refl), refl), refl),
            ((((refl, refl), refl), refl), ((((refl, refl), refl), refl), tt)),
          ),
        ),
      )
      refl ((refl, refl), refl)
      (omega arith, (omega arith, (omega arith, (omega arith, omega arith))))
