-- ===== src/Filter/Reply.antt =====
-- `catch` and its emergency answer: src/shared/infrastructure/filters/all-exceptions.filter.ts.
use api_padrao.Prelude.{
  ℕ, Text, Option, none, some, List, [], ◌∷◌, ◌++◌, leb, nat_eq, string_eq, if◌then◌else◌,
}
use api_padrao.Filter.Problem.{
  Exception, ProblemDetails, status_of, own_text, text_raises, problem_of,
}

-- a member of the response: no function, or a function that raises or not
pub data Method : Type 0 where
  absent : Method
  present : Option Text → Method

-- the methods of the response; those of the emergency stand for the call chain, as `code(500).send`
pub record AdapterResponse : Type 0 where
  pub header : Method
  pub set_header : Method
  pub code : Method
  pub status : Method
  pub send : Method

-- what the framework's objects do: the response, which can be undefined, the path of the request or
-- what reading it raises, and what `httpAdapter.reply` raises
pub record Host : Type 0 where
  pub response : Option AdapterResponse
  pub path : Text
  pub path_raises : Option Text
  pub reply_raises : Option Text

-- a line of the logger, or an answer: the problem with its status, or the emergency body's `error`,
-- which goes out with the status 500
pub data Event : Type 0 where
  critical : Text → Text → Event
  crashed : Text → Event
  fallback_failed : Event
  replied : ProblemDetails → ℕ → Event
  emergency : Text → Event

unfoldable pub critical_log : Host → Exception → List Event
unfolding status_of
critical_log host e = if leb 500 (status_of e) then critical host.path (own_text e) ∷ [] else []

-- what setting the content type raises
abbrev pub set_content_type_on : AdapterResponse → Method → Method → Option Text
set_content_type_on r (present raised) _ = raised
set_content_type_on r absent (present raised) = raised
set_content_type_on r absent absent = none

abbrev pub set_content_type : Option AdapterResponse → Option Text
set_content_type none = none
set_content_type (some r) = set_content_type_on r r.header r.set_header

abbrev pub answer_by : Text → Option Text → List Event
answer_by text none = emergency text ∷ []
answer_by text (some raised) = fallback_failed ∷ []

-- the first of `code`, `status` and `send` that is there; without any, nothing is sent
abbrev pub first_method : Text → Method → Method → Method → List Event
first_method text (present raised) _ _ = answer_by text raised
first_method text absent (present raised) _ = answer_by text raised
first_method text absent absent (present raised) = answer_by text raised
first_method text absent absent absent = []

-- to read a member of `undefined` raises
unfoldable pub try_emergency_reply : Option AdapterResponse → Text → List Event
try_emergency_reply none text = fallback_failed ∷ []
try_emergency_reply (some r) text = first_method text r.code r.status r.send

unfoldable pub crash : Host → Text → List Event
unfolding try_emergency_reply
crash host text = crashed text ∷ try_emergency_reply host.response text

unfoldable pub reply : ℕ → Exception → Host → Option Text → List Event
unfolding problem_of crash
reply now e host none = replied (problem_of now host.path e) (status_of e) ∷ []
reply now e host (some text) = crash host text

unfoldable pub respond : ℕ → Exception → Host → Option Text → List Event
unfolding reply crash
respond now e host none = reply now e host host.reply_raises
respond now e host (some text) = crash host text

-- the log of a severe error, which reads the text of the exception, then the answer
unfoldable pub log_and_respond : ℕ → Exception → Host → Option Text → List Event
unfolding critical_log respond crash
log_and_respond now e host none =
    critical_log host e ++ respond now e host (set_content_type host.response)
log_and_respond now e host (some text) = crash host text

unfoldable pub handle : ℕ → Exception → Host → Option Text → List Event
unfolding log_and_respond crash
handle now e host none = log_and_respond now e host (text_raises e)
handle now e host (some text) = crash host text

unfoldable pub catch : ℕ → Exception → Host → List Event
unfolding handle
catch now e host = handle now e host host.path_raises
