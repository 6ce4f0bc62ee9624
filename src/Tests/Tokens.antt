-- ===== src/Tests/Tokens.antt =====
-- The rotation of refresh tokens.
use api_padrao.Prelude.{ℕ, ◌≡◌, refl, none, some}
use api_padrao.Http.{err, forbidden, atividade_suspeita}
use api_padrao.World.{World}
use api_padrao.Auth.{Tokens, refresh_tokens}
use api_padrao.Auth.Refresh.{Rotated, refresh_rotates, refresh-spent}
use api_padrao.Tests.Data.{ports, request, refresh_row, with_refresh}

abbrev rotated_tokens : Tokens
rotated_tokens = record { access_token = "jwt"; refresh_token = "novo" }

abbrev rotated : World
rotated = (refresh_tokens ports (request 10 "novo") "r" (with_refresh none)).1

refresh_rotates_example :
    Rotated ports (request 10 "novo") "r" (with_refresh none) rotated_tokens rotated
unfolding refresh_tokens api_padrao.Prelude.find api_padrao.Prelude.any
    api_padrao.Prelude.update_where
refresh_rotates_example =
    refresh_rotates ports (request 10 "novo") "r" (with_refresh none) rotated rotated_tokens refl

refresh-spent_example :
    refresh_tokens ports (request 10 "novo") "r" (with_refresh (some 5))
    ≡ (err (forbidden atividade_suspeita), with_refresh (some 5))
unfolding api_padrao.Prelude.find
refresh-spent_example =
    refresh-spent ports (request 10 "novo") "r" (with_refresh (some 5))
      (record { row = refresh_row (some 5); found = refl; revoked = refl })
