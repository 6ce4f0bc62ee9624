-- ===== src/Tests/Mails.antt =====
-- E-mails from templates.
use api_padrao.Prelude.{
  Text, String, Bool, true, false, ◌&&◌, not, Option, none, some, [], ◌∷◌, ◌≡◌, refl, codes,
  includes, string_eq,
}
use api_padrao.Email.Address.{is_email, is_template_id}
use api_padrao.Email.Placeholders.{char, hole, scan, Variables, text, value_of, render}
use api_padrao.Email.Placeholders.Replaced.{render-placeholder}
use api_padrao.Email.Sender.{
  EmailTemplate, Email, Config, known_templates, thrown, sent, all_variables, is_disabled, send,
}
use api_padrao.Email.Sender.Throws.{throws, lacks_variable, send-throws}

address_passes : is_email (codes "ana@acme.com.br") ≡ true
unfolding is_email
address_passes = refl

address_without_dot : is_email (codes "ana@acme") ≡ false
unfolding is_email
address_without_dot = refl

address_with_two_at : is_email (codes "ana@b@acme.com") ≡ false
unfolding is_email
address_with_two_at = refl

address_with_space : is_email (codes "ana b@acme.com") ≡ false
unfolding is_email
address_with_space = refl

address_that_ends_in_dot : is_email (codes "ana@acme.") ≡ false
unfolding is_email
address_that_ends_in_dot = refl

template_id_passes : is_template_id (codes "auth.password_reset") ≡ true
unfolding is_template_id
template_id_passes = refl

template_id_with_two_dots : is_template_id (codes "auth..reset") ≡ false
unfolding is_template_id
template_id_with_two_dots = refl

-- a third brace is a character of its own, and a space is no key
scan_of_braces :
    scan (codes "{{{k}}{{ k}}")
    ≡ char b'{'
      ∷ hole (codes "k")
      ∷ char b'{'
      ∷ char b'{'
      ∷ char b' '
      ∷ char b'k'
      ∷ char b'}'
      ∷ char b'}'
      ∷ []
unfolding scan
scan_of_braces = refl

abbrev ana_variables : Variables
ana_variables = (codes "nome", codes "Ana") ∷ []

-- the rest has a brace of its own, and no placeholder
render-placeholder_example :
    render (codes "Oi, {{nome}}! {{x}") ana_variables ≡ text (codes "Oi, Ana! {{x}")
unfolding value_of render api_padrao.Prelude.text_beq
render-placeholder_example =
    render-placeholder ana_variables (codes "Oi, ") b'n' (codes "ome") (codes "! {{x}")
      (refl, (refl, (refl, (refl, tt)))) (refl, (refl, (refl, (refl, tt))))

abbrev config : Config
config = record {
  notifications_enabled = none;
  app_name = none;
  app_login_url = none;
  year = codes "2026";
}

abbrev welcome : EmailTemplate
welcome = record { subject = codes "{{APP_NAME}}"; body = codes "Oi {{nome}}" }

abbrev templates : String → Option EmailTemplate
templates id = some welcome

abbrev takes_all : Email → Bool
takes_all email = true

abbrev ana : Text
ana = codes "ana@acme.com"

welcome_is_sent :
    send takes_all config templates "usuarios.welcome" ana ((codes "nome", codes "Ana") ∷ [])
    ≡ sent (record { to = ana; subject = codes "API Padrão"; body = codes "Oi Ana" })
unfolding send api_padrao.Prelude.text_beq
welcome_is_sent = refl

welcome_throws : send takes_all config templates "usuarios.welcome" ana [] ≡ thrown (codes "nome")
unfolding send api_padrao.Prelude.text_beq
welcome_throws = refl

send-throws_example : throws (send takes_all config templates "usuarios.welcome" ana []) ≡ (
    not (is_disabled config.notifications_enabled)
    && is_template_id (codes "usuarios.welcome")
    && includes "usuarios.welcome" known_templates
    && is_email ana
    && lacks_variable (all_variables config []) (templates "usuarios.welcome"))
send-throws_example = send-throws takes_all config templates "usuarios.welcome" ana []
