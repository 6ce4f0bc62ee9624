-- ===== src/Filter/Problem.antt =====
-- The problem details of an exception: src/shared/infrastructure/filters/all-exceptions.filter.ts.
use api_padrao.Prelude.{
  ℕ, String, Text, Bool, false, Option, none, some, List, [], ◌∷◌, ◌++◌, codes, leb, ◌==◌, nat_eq,
  string_eq, if◌then◌else◌,
}
use api_padrao.Prelude.Decimal.{decimal}

-- the `message` of the response of an HttpException: a string, an array, of which the texts of the
-- elements are kept, or another value
pub data Message : Type 0 where
  one : Text → Message
  several : List Text → Message
  other : Message

-- `getResponse()`: a string, an object with the key `message`, or one without it
pub data Response : Type 0 where
  plain : Text → Response
  with_message : Message → Response
  without_message : Response

-- `meta.target` of a Prisma error
pub data Target : Type 0 where
  field : Text → Target
  fields : List Text → Target
  no_target : Target

-- a value that was thrown, with its `message`; `value` is no Error, and holds `String(exception)`, and
-- of `unprintable` that call raises, as of an object without a prototype, with the text that it holds
pub data Exception : Type 0 where
  http : ℕ → Response → Text → Exception
  known_request : String → Target → Text → Exception
  error : Text → Exception
  value unprintable : Text → Exception

abbrev pub is_prisma_error : Exception → String → Bool
is_prisma_error (known_request code _ message) wanted = code == wanted
is_prisma_error _ wanted = false

unfoldable pub map_prisma_error_to_status : Exception → ℕ
map_prisma_error_to_status e =
    if is_prisma_error e "P2002" then 409 else if is_prisma_error e "P2025" then 404 else 500

unfoldable pub status_of : Exception → ℕ
unfolding map_prisma_error_to_status
status_of (http status response message) = status
status_of e = map_prisma_error_to_status e

-- `.join(', ')`
unfoldable pub join : List Text → Text
join [] = []
join (t ∷ []) = t
join (t ∷ u ∷ ts) = t ++ codes ", " ++ join (u ∷ ts)

unfoldable pub format_http_exception_message : Response → Text → Text
unfolding join
format_http_exception_message (plain text) message = text
format_http_exception_message (with_message (one text)) message = text
format_http_exception_message (with_message (several texts)) message = join texts
format_http_exception_message (with_message other) message = message
format_http_exception_message without_message message = message

unfoldable pub format_prisma_target : Target → Text
unfolding join
format_prisma_target (field name) = name
format_prisma_target (fields names) = join names
format_prisma_target no_target = codes "campo"

-- `exception.message` of an Error, `String(exception)` of another value
abbrev pub own_text : Exception → Text
own_text (http status response message) = message
own_text (known_request code _ message) = message
own_text (error message) = message
own_text (value text) = text
own_text (unprintable raised) = []

-- what reading that text raises
abbrev pub text_raises : Exception → Option Text
text_raises (unprintable raised) = some raised
text_raises _ = none

abbrev pub message_otherwise : Exception → ℕ → Text
message_otherwise e status = if leb 500 status then codes "Erro interno no servidor" else own_text e

unfoldable pub conflict_message : Target → Text
unfolding format_prisma_target
conflict_message target =
    codes "Conflito de dados: campo '" ++ format_prisma_target target ++ codes "' já existe."

unfoldable pub extract_error_message : Exception → ℕ → Text
unfolding format_http_exception_message conflict_message
extract_error_message (http status response message) _ =
    format_http_exception_message response message
extract_error_message (known_request code target message) status =
    if code == "P2002"
    then conflict_message target
    else if code == "P2025"
    then codes "Registro não encontrado."
    else message_otherwise (known_request code target message) status
extract_error_message e status = message_otherwise e status

unfoldable pub problem_type_for : ℕ → Text
unfolding decimal
problem_type_for status = codes "https://api.padrao/problems/" ++ decimal status

unfoldable pub problem_title_for : ℕ → String
problem_title_for status =
    if status == 400
    then "Requisição inválida"
    else if status == 401
    then "Não autenticado"
    else if status == 403
    then "Acesso negado"
    else if status == 404
    then "Recurso não encontrado"
    else if status == 409
    then "Conflito de dados"
    else if status == 422
    then "Entidade não processável"
    else if status == 429
    then "Muitas requisições"
    else if leb 500 status
    then "Erro interno do servidor"
    else "Erro na requisição"

unfoldable pub code_otherwise : Exception → ℕ → Text
unfolding decimal
code_otherwise (http given response message) status = codes "HTTP_" ++ decimal status
code_otherwise e status = if leb 500 status then codes "INTERNAL_ERROR" else codes "CLIENT_ERROR"

unfoldable pub error_code_for : Exception → ℕ → Text
unfolding code_otherwise
error_code_for e status =
    if is_prisma_error e "P2002"
    then codes "P2002"
    else if is_prisma_error e "P2025"
    then codes "P2025"
    else code_otherwise e status

-- `timestamp` is the instant that the text is made of
pub record ProblemDetails : Type 0 where
  pub type : Text
  pub title : String
  pub status : ℕ
  pub detail : Text
  pub instance_ : Text
  pub status_code : ℕ
  pub message : Text
  pub path : Text
  pub timestamp : ℕ
  pub code : Text

unfoldable pub problem_of : ℕ → Text → Exception → ProblemDetails
unfolding status_of extract_error_message problem_type_for problem_title_for error_code_for
problem_of now path e =
    let status = status_of e in
    let detail = extract_error_message e status in
    record {
      type = problem_type_for status;
      title = problem_title_for status;
      status = status;
      detail = detail;
      instance_ = path;
      status_code = status;
      message = detail;
      path = path;
      timestamp = now;
      code = error_code_for e status;
    }
