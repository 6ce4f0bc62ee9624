-- ===== src/Tests/Sessions.antt =====
-- A refresh token among other requests.
use api_padrao.Prelude.{ℕ, ◌≡◌, refl, none, some, true, false, List, [], ◌∷◌}
use api_padrao.Http.{err, forbidden, atividade_suspeita}
use api_padrao.World.{World}
use api_padrao.Auth.{Tokens, refresh_tokens}
use api_padrao.Recovery.{reset_password}
use api_padrao.Sessions.{Action, log_in, refresh, ask_reset, reset, patch, act_all}
use api_padrao.Sessions.SingleUse.{refresh_once, reset_ends_sessions}
use api_padrao.Tests.Data.{
  ports, request, ana, dto, refresh_row, with_refresh, reset_row, with_reset, payload_with,
}

abbrev new_tokens : Tokens
new_tokens = record { access_token = "jwt"; refresh_token = "novo" }

abbrev actions : List Action
actions =
    log_in (request 20 "s") (dto "certa")
    ∷ refresh (request 30 "u") "novo"
    ∷ ask_reset (request 40 "q") ana
    ∷ reset (request 50 "") "q" "nova"
    ∷ patch (request 60 "") 1 (record { email = none; senha = none; ativo = some false })
        (payload_with "ADMIN") (some "e1")
    ∷ []

abbrev after_refresh : World
after_refresh = (refresh_tokens ports (request 10 "novo") "r" (with_refresh none)).1

abbrev afterwards : World
afterwards = act_all ports actions after_refresh

refresh_once_example :
    refresh_tokens ports (request 70 "v") "r" afterwards
    ≡ (err (forbidden atividade_suspeita), afterwards)
unfolding refresh_tokens api_padrao.Prelude.find api_padrao.Prelude.any
    api_padrao.Prelude.update_where
refresh_once_example =
    refresh_once ports (request 10 "novo") (request 70 "v") "r" (with_refresh none) after_refresh
      new_tokens actions refl

abbrev after_reset : World
after_reset = (reset_password ports (request 10 "") "p" "nova" with_reset).1

abbrev after_all : World
after_all = act_all ports actions after_reset

reset_ends_sessions_example :
    refresh_tokens ports (request 70 "v") "r" after_all
    ≡ (err (forbidden atividade_suspeita), after_all)
unfolding api_padrao.Recovery.find_valid_by_hash api_padrao.Prelude.find reset_password
    api_padrao.Prelude.any api_padrao.Usuarios.Repository.find_one api_padrao.Prelude.update_where
reset_ends_sessions_example =
    reset_ends_sessions ports (request 10 "") (request 70 "v") "p" "nova" "r" reset_row
      (refresh_row none) with_reset after_reset actions refl refl refl refl
