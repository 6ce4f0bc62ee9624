-- ===== src/Email/Sender.antt =====
-- `send` of src/shared/application/services/email-sender.service.ts. The templates that the loader has
-- read from the file system, and the transport behind `EmailService`, are arguments.
pub mod Throws
use api_padrao.Prelude.{
  ℕ, String, Text, Bool, true, false, not, ◌&&◌, Option, none, some, List, [], ◌∷◌, ◌++◌, codes,
  includes, ◌==◌, string_eq, if◌then◌else◌,
}
use mathlib.Core.Option
use api_padrao.Email.Address.{is_template_id, is_email}
use api_padrao.Email.Placeholders.{
  Token, Variables, Rendered, text, missing, scan, first_missing, render,
}

pub record EmailTemplate : Type 0 where
  pub subject : Text
  pub body : Text

pub record Email : Type 0 where
  pub to : Text
  pub subject : Text
  pub body : Text

-- `year` is the text of `new Date().getFullYear()`
pub record Config : Type 0 where
  pub notifications_enabled : Option String
  pub app_name : Option Text
  pub app_login_url : Option Text
  pub year : Text

-- KNOWN_TEMPLATES of src/shared/infrastructure/services/template-loader.service.ts
abbrev pub known_templates : List String
known_templates =
    "auth.password_reset" ∷ "usuarios.welcome" ∷ "usuarios.password_changed" ∷ "empresas.user_added"
    ∷ "usuarios.account_disabled" ∷ []

-- what a call did: nothing, for a reason that is logged; a transport that took the e-mail, or that
-- raised, which is logged; or an exception of its own, for a placeholder
pub data Outcome : Type 0 where
  disabled bad_template_id unknown_template bad_recipient no_template : Outcome
  sent : Email → Outcome
  failed : Email → Outcome
  thrown : Text → Outcome

abbrev pub all_variables : Config → Variables → Variables
all_variables config variables =
    variables
    ++ ((codes "APP_NAME", Option.get_or config.app_name (codes "API Padrão"))
        ∷ (
          codes "APP_LOGIN_URL",
          Option.get_or config.app_login_url (codes "http://localhost:3000"),
        )
        ∷ (codes "ano_atual", config.year)
        ∷ [])

abbrev pub is_disabled : Option String → Bool
is_disabled none = false
is_disabled (some flag) = flag == "false"

-- the placeholders of the subject are looked at before those of the body
abbrev pub placeholders : EmailTemplate → List Token
placeholders template = scan template.subject ++ scan template.body

module _ (transport : Email → Bool) where
  -- `try { await this.emailService.send(…) } catch …`
  abbrev pub deliver : Email → Outcome
  deliver email = if transport email then sent email else failed email

  abbrev pub with_body : Text → Text → Rendered Text → Outcome
  with_body to subject (text body) = deliver (record { to = to; subject = subject; body = body })
  with_body to subject (missing key) = thrown key

  abbrev pub with_subject : Text → Text → Variables → Rendered Text → Outcome
  with_subject to body vars (text subject) = with_body to subject (render body vars)
  with_subject to body vars (missing key) = thrown key

  abbrev pub send_template : Text → Variables → EmailTemplate → Outcome
  send_template to vars template = elim (first_missing vars (placeholders template)) [
    | some key ↦ thrown key
    | none ↦ with_subject to template.body vars (render template.subject vars)
  ]

  abbrev pub send_found : Text → Variables → Option EmailTemplate → Outcome
  send_found to vars none = no_template
  send_found to vars (some template) = send_template to vars template

  unfoldable pub send :
      Config → (String → Option EmailTemplate) → String → Text → Variables → Outcome
  unfolding is_template_id is_email includes scan first_missing render
  send config templates template_id to variables =
      if is_disabled config.notifications_enabled
      then disabled
      else if not (is_template_id (codes template_id))
      then bad_template_id
      else if not (includes template_id known_templates)
      then unknown_template
      else if not (is_email to)
      then bad_recipient
      else send_found to (all_variables config variables) (templates template_id)
