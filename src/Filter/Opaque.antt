-- ===== src/Filter/Opaque.antt =====
-- What an exception that is none of HTTP lets out:
-- src/shared/infrastructure/filters/all-exceptions.filter.ts.
use api_padrao.Prelude.{
  ℕ, Text, Bool, true, false, not, ◌&&◌, Option, none, some, [], ◌≡◌, refl, ◌∙◌, sym, ◌==◌,
  string_eq, arith,
}
use api_padrao.Filter.Problem.{
  Exception, http, known_request, error, value, unprintable, status_of, map_prisma_error_to_status,
  extract_error_message, error_code_for, text_raises, problem_of,
}
use api_padrao.Filter.Reply.{Host, set_content_type, reply, respond, log_and_respond, handle, catch}
use api_padrao.Filter.Answers.{sent, sent-log}

-- neither an HttpException nor one of the two Prisma errors that the filter knows, and with a text
abbrev pub is_internal : Exception → Bool
is_internal (http status response message) = false
is_internal (known_request code _ message) = not (code == "P2002") && not (code == "P2025")
is_internal (error message) = true
is_internal (value text) = true
is_internal (unprintable raised) = false

pub status_of-internal : (e : Exception) → is_internal e ≡ true → status_of e ≡ 500
unfolding status_of map_prisma_error_to_status
status_of-internal (http status response message) i = cc
status_of-internal (known_request code _ message) i = ground arith
status_of-internal (error message) i = refl
status_of-internal (value text) i = refl
status_of-internal (unprintable raised) i = refl

problem_of-internal :
    (now : ℕ) (path : Text) (e : Exception)
    → is_internal e ≡ true
    → problem_of now path e ≡ problem_of now path (value [])
unfolding problem_of status_of map_prisma_error_to_status extract_error_message error_code_for
problem_of-internal now path (http status response message) i = cc
problem_of-internal now path (known_request code _ message) i =
    let not_unique : (code == "P2002") ≡ false = ground arith in
    let not_absent : (code == "P2025") ≡ false = ground arith in rw (not_unique, not_absent) refl
problem_of-internal now path (error message) i = refl
problem_of-internal now path (value text) i = refl
problem_of-internal now path (unprintable raised) i = refl

text_raises-internal : (e : Exception) → is_internal e ≡ true → text_raises e ≡ none
text_raises-internal (http status response message) i = refl
text_raises-internal (known_request code _ message) i = refl
text_raises-internal (error message) i = refl
text_raises-internal (value text) i = refl
text_raises-internal (unprintable raised) i = ground arith

sent-reply :
    (now : ℕ) (e : Exception) (host : Host) (raised : Option Text)
    → is_internal e ≡ true
    → sent (reply now e host raised) ≡ sent (reply now (value []) host raised)
unfolding sent reply
sent-reply now e host none i =
    rw (problem_of-internal now host.path e i, status_of-internal e i) refl
sent-reply now e host (some text) i = refl

sent-respond :
    (now : ℕ) (e : Exception) (host : Host) (raised : Option Text)
    → is_internal e ≡ true
    → sent (respond now e host raised) ≡ sent (respond now (value []) host raised)
unfolding respond reply
sent-respond now e host none i = sent-reply now e host host.reply_raises i
sent-respond now e host (some text) i = refl

sent-handle :
    (now : ℕ) (e : Exception) (host : Host) (raised : Option Text)
    → is_internal e ≡ true
    → sent (handle now e host raised) ≡ sent (handle now (value []) host raised)
unfolding handle log_and_respond api_padrao.Filter.Reply.critical_log
sent-handle now e host none i =
    let content = set_content_type host.response in
    rw (text_raises-internal e i) (
      sent-log host e (respond now e host content)
      ∙ sent-respond now e host content i
      ∙ sym (sent-log host (value []) (respond now (value []) host content)))
sent-handle now e host (some text) i = refl

-- The client cannot tell two exceptions apart that are neither an HttpException nor one of the Prisma
-- errors P2002 and P2025, and whose text `String` can read: whatever they say and whatever the
-- framework's objects raise, the same answers go out for both, and a problem that goes out for one of
-- them has the status 500.
pub catch-opaque :
    (now : ℕ) (host : Host) (e f : Exception)
    → is_internal e ≡ true
    → is_internal f ≡ true
    → (sent (catch now e host) ≡ sent (catch now f host))
      × ((problem_of now host.path e).status ≡ 500)
unfolding catch problem_of
catch-opaque now host e f i j = (
  sent-handle now e host host.path_raises i ∙ sym (sent-handle now f host host.path_raises j),
  status_of-internal e i,
)
