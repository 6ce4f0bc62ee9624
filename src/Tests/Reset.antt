-- ===== src/Tests/Reset.antt =====
-- Password resets.
use api_padrao.Prelude.{
  true, Memᴰ, any, ◌==◌, nat_eq, string_eq, ℕ, ◌+◌, ◌<◌, String, ◌≡◌, refl, none, some, count_where,
  update_where, ltb, if◌then◌else◌,
}
use api_padrao.Http.{ok, err, unauthorized, token_de_reset_invalido}
use api_padrao.Database.{PasswordResetToken}
use api_padrao.World.{World}
use api_padrao.Auth.{by_id, is_active_of}
use api_padrao.Usuarios.Repository.{map_to_entity}
use api_padrao.Recovery.{
  token_ttl_ms, is_unused_of, find_valid_by_hash, set_senha, reset_found, reset_password,
  forgot_password,
}
use api_padrao.Recovery as Recovery
use api_padrao.Recovery.Reset.{reset_password_sound}
use api_padrao.Recovery.Once.{reset_password_once}
use api_padrao.Recovery.Race.{reset_password_race}
use api_padrao.Recovery.Forgot.{forgot_password_one_token, forgot_password_silent}
use api_padrao.Tests.Data.{ports, request, ana, ana_in_capitals, ana_row, with_reset, reset_row}

abbrev reset_done : World
reset_done = (reset_password ports (request 10 "") "p" "nova" with_reset).1

reset_password_sound_example :
    (row : PasswordResetToken) × Memᴰ row with_reset.db.reset_tokens
    × (row.token_hash ≡ "#p")
    × (row.used_at ≡ none)
    × ((request 10 "").now < row.expires_at)
    × (reset_done.db.reset_tokens
        ≡ update_where
            (λ (t : PasswordResetToken). t.id == row.id)
            (λ (t : PasswordResetToken). record t { used_at = some 10 })
            with_reset.db.reset_tokens)
    × (count_where (is_active_of row.user_id) reset_done.db.refresh_tokens ≡ 0)
    × (any (by_id row.user_id) with_reset.db.usuarios ≡ true)
    × (reset_done.db.usuarios
        ≡ update_where (by_id row.user_id) (set_senha 10 "#nova") with_reset.db.usuarios)
unfolding reset_password find_valid_by_hash api_padrao.Prelude.find api_padrao.Prelude.any
    api_padrao.Usuarios.Repository.find_one update_where
reset_password_sound_example =
    reset_password_sound ports (request 10 "") "p" "nova" with_reset reset_done refl

reset_password_once_example :
    reset_password ports (request 20 "") "p" "outra" reset_done
    ≡ (err (unauthorized token_de_reset_invalido), reset_done)
unfolding api_padrao.Prelude.any reset_password find_valid_by_hash api_padrao.Prelude.find
    api_padrao.Usuarios.Repository.find_one update_where
reset_password_once_example =
    reset_password_once ports (request 10 "") (request 20 "") "p" "nova" "outra" with_reset
      reset_done (refl, tt) refl

reset_password_race_example :
    (w'' : World) × (reset_found ports (request 11 "") reset_row "outra" reset_done ≡ (ok tt, w''))
    × (w''.db.usuarios
        ≡ update_where (by_id reset_row.user_id) (set_senha 11 "#outra") reset_done.db.usuarios)
unfolding find_valid_by_hash api_padrao.Prelude.find reset_password api_padrao.Prelude.any
    api_padrao.Usuarios.Repository.find_one update_where
reset_password_race_example =
    reset_password_race ports (request 10 "") (request 11 "") "p" "nova" "outra" reset_row
      with_reset reset_done (λ m. refl) refl refl refl

forgot_password_one_token_example :
    (count_where
        (is_unused_of 1)
        (forgot_password ports (request 10 "q") ana with_reset).1.db.reset_tokens
      ≡ 1)
    × ((later : ℕ)
        → find_valid_by_hash later "#q" (forgot_password ports (request 10 "q") ana with_reset).1.db
          ≡ (if ltb later (10 + token_ttl_ms)
              then some (Recovery.reset_row ports (request 10 "q") 1)
              else none))
unfolding api_padrao.Usuarios.Repository.find_by_email api_padrao.Prelude.find
    api_padrao.Prelude.text_beq api_padrao.Prelude.any
forgot_password_one_token_example =
    forgot_password_one_token ports (request 10 "q") ana with_reset (map_to_entity ana_row) refl
      refl refl

forgot_password_silent_example :
    (forgot_password ports (request 10 "q") ana_in_capitals with_reset).0 ≡ ok tt
unfolding api_padrao.Prelude.any
forgot_password_silent_example =
    forgot_password_silent ports (request 10 "q") ana_in_capitals with_reset (λ m. refl) refl
