-- ===== src/Email/Sender/Throws.antt =====
-- When `send` of src/shared/application/services/email-sender.service.ts raises.
use api_padrao.Prelude.{
  String, Text, Bool, true, false, not, ◌&&◌, Option, none, some, List, [], ◌∷◌, ◌++◌, ◌≡◌, refl,
  ◌∙◌, arith, codes, includes, string_eq, inl, inr, Bool-cases, Option-cases,
}
use api_padrao.Email.Address.{is_template_id, is_email}
use api_padrao.Email.Placeholders.{
  Token, char, hole, Variables, text, scan, first_missing, fill, render, value_of,
}
use api_padrao.Email.Sender.{
  EmailTemplate, Email, Config, known_templates, Outcome, thrown, all_variables, is_disabled,
  placeholders, send_template, send_found, deliver, send,
}

abbrev pub throws : Outcome → Bool
throws (thrown key) = true
throws _ = false

-- `Array.prototype.every` over the placeholders
unfoldable pub all_provided : Variables → List Token → Bool
unfolding value_of
all_provided vars [] = true
all_provided vars (char c ∷ ts) = all_provided vars ts
all_provided vars (hole key ∷ ts) = elim (value_of key vars) [
  | none ↦ false
  | some v ↦ all_provided vars ts
]

-- a template that the variables do not fill
unfoldable pub lacks_variable : Variables → Option EmailTemplate → Bool
unfolding all_provided scan
lacks_variable vars none = false
lacks_variable vars (some t) =
    not (all_provided vars (scan t.subject) && all_provided vars (scan t.body))

module _ (vars : Variables) where
  provided-none : (ts : List Token) → all_provided vars ts ≡ true → first_missing vars ts ≡ none
  unfolding all_provided first_missing
  provided-none [] h = refl
  provided-none (char c ∷ ts) h = provided-none ts h
  provided-none (hole key ∷ ts) h = ground (arith, provided-none ts)

  lacking-some :
      (ts : List Token)
      → all_provided vars ts ≡ false
      → (key : Text) × (first_missing vars ts ≡ some key)
  unfolding all_provided first_missing
  lacking-some [] h = cc
  lacking-some (char c ∷ ts) h = lacking-some ts h
  lacking-some (hole key ∷ ts) h = elim (Option-cases (value_of key vars)) [
    | inl absent ↦ (key, ground arith)
    | inr (v, there) ↦ let (other, e) = lacking-some ts (ground arith) in (other, ground arith)
  ]

  none-append :
      (ts us : List Token)
      → first_missing vars ts ≡ none
      → first_missing vars (ts ++ us) ≡ first_missing vars us
  unfolding first_missing
  none-append [] us h = refl
  none-append (char c ∷ ts) us h = none-append ts us h
  none-append (hole key ∷ ts) us h = ground (arith, none-append ts us)

  some-append :
      (ts us : List Token) {key : Text}
      → first_missing vars ts ≡ some key
      → first_missing vars (ts ++ us) ≡ some key
  unfolding first_missing
  some-append [] us h = cc
  some-append (char c ∷ ts) us h = some-append ts us h
  some-append (hole key ∷ ts) us {key = other} h = ground (arith, some-append ts us {key = other})

module _ (transport : Email → Bool) (to : Text) (vars : Variables) where
  deliver-throws : (email : Email) → throws (deliver transport email) ≡ false
  deliver-throws email = elim (Bool-cases (transport email)) [
    | inl taken ↦ rw (taken, deliver) refl
    | inr broken ↦ rw (broken, deliver) refl
  ]

  render-text :
      (template : Text)
      → first_missing vars (scan template) ≡ none
      → render template vars ≡ text (fill vars (scan template))
  unfolding render
  render-text template h = rw (h, render) refl

  complete-throws :
      (t : EmailTemplate)
      → first_missing vars (scan t.subject) ≡ none
      → first_missing vars (scan t.body) ≡ none
      → throws (send_template transport to vars t) ≡ false
  complete-throws t s b =
      let nothing : first_missing vars (placeholders t) ≡ none =
        none-append vars (scan t.subject) (scan t.body) s ∙ b in
      rw (send_template, nothing, render-text t.subject s, render-text t.body b)
        (deliver-throws (record {
          to = to;
          subject = fill vars (scan t.subject);
          body = fill vars (scan t.body);
        }))

  lacking-throws :
      (t : EmailTemplate) {key : Text}
      → first_missing vars (placeholders t) ≡ some key
      → throws (send_template transport to vars t) ≡ true
  lacking-throws t e = rw (e, send_template) refl

  template-throws :
      (t : EmailTemplate)
      → throws (send_template transport to vars t) ≡ lacks_variable vars (some t)
  unfolding lacks_variable
  template-throws t =
      let subject = scan t.subject in
      let body = scan t.body in
      elim (Bool-cases (all_provided vars subject)) [
        | inr lacking ↦
            let (key, e) = lacking-some vars subject lacking in
            rw lacking (lacking-throws t (some-append vars subject body e))
        | inl filled ↦
            let no_hole = provided-none vars subject filled in
            elim (Bool-cases (all_provided vars body)) [
              | inr lacking ↦
                  let (key, e) = lacking-some vars body lacking in
                  rw (filled, lacking)
                    (lacking-throws t (none-append vars subject body no_hole ∙ e))
              | inl both ↦
                  rw (filled, both) (complete-throws t no_hole (provided-none vars body both))
            ]
      ]

  found-throws :
      (found : Option EmailTemplate)
      → throws (send_found transport to vars found) ≡ lacks_variable vars found
  unfolding lacks_variable
  found-throws none = refl
  found-throws (some t) = template-throws t

-- `send` raises exactly when the e-mails are not switched off, the template is known and loaded, the
-- address is one, and some placeholder of the subject or of the body has no variable: no other
-- failure, of the transport in particular, reaches the caller.
pub send-throws :
    (transport : Email → Bool) (config : Config) (templates : String → Option EmailTemplate)
    (template_id : String) (to : Text) (variables : Variables)
    → throws (send transport config templates template_id to variables) ≡ (
        not (is_disabled config.notifications_enabled)
        && is_template_id (codes template_id)
        && includes template_id known_templates
        && is_email to
        && lacks_variable (all_variables config variables) (templates template_id))
unfolding send
send-throws transport config templates template_id to variables =
    let vars = all_variables config variables in
    let found = templates template_id in ground (arith, found-throws transport to vars found)
