-- ===== src/Auditoria/Interceptor.antt =====
-- src/shared/infrastructure/interceptors/audit.interceptor.ts: the event of an audited request, which
-- goes to the table of the outbox and to the queue of the audit log. `encode` makes the text of a job.
use api_padrao.Prelude.{
  ℕ, String, Text, Bool, true, false, Option, none, some, List, [], ◌∷◌, ◌≡◌, refl, codes,
  to_lower_case, includes, map, text_eq, string_eq, ◌==◌, if◌then◌else◌,
}
use api_padrao.Outbox.{OutboxEvent, System, Broker, add_audit, add_to, route_to_queue, process}

abbrev pub sensitive_keys : List Text
sensitive_keys =
    codes "senha"
    ∷ codes "password"
    ∷ codes "token"
    ∷ codes "secret"
    ∷ codes "refreshtoken"
    ∷ codes "accesstoken"
    ∷ codes "cpf"
    ∷ codes "cnpj"
    ∷ codes "telefone"
    ∷ codes "celular"
    ∷ codes "email"
    ∷ codes "endereco"
    ∷ codes "cep"
    ∷ codes "rg"
    ∷ codes "pis"
    ∷ []

-- the fields of the body, in their order
abbrev pub Body : Type 0
Body = List (Text × String)

unfoldable pub sanitize_field : Text × String → Text × String
unfolding to_lower_case includes
sanitize_field (key, value) =
    if includes (to_lower_case key) sensitive_keys then (key, "********") else (key, value)

unfoldable pub sanitize_body : Body → Body
unfolding sanitize_field
sanitize_body body = map sanitize_field body

pub record AuditOptions : Type 0 where
  pub acao : String
  pub recurso : String

-- what the interceptor reads of the request: `user_id` is `user?.userId || user?.sub`
pub record Request : Type 0 where
  pub user_id : Option ℕ
  pub method : String
  pub url : String
  pub body : Option Body
  pub params_id : Option String
  pub ip : Option String
  pub user_agent : Option String

pub record AuditJobData : Type 0 where
  pub acao : String
  pub usuario_id : Option ℕ
  pub recurso : String
  pub recurso_id : Option String
  pub method : String
  pub url : String
  pub body : Option Body
  pub ip : Option String
  pub user_agent : Option String

abbrev pub sanitized : Option Body → Option Body
unfolding sanitize_body
sanitized none = none
sanitized (some body) = some (sanitize_body body)

-- `params?.id || data?.id?.toString()`
abbrev pub first_given : Option String → Option String → Option String
first_given none data_id = data_id
first_given (some id) data_id = if id == "" then data_id else some id

unfoldable pub job_data : AuditOptions → Request → Option String → AuditJobData
unfolding sanitized
job_data options request data_id = record {
  acao = options.acao;
  usuario_id = request.user_id;
  recurso = options.recurso;
  recurso_id = first_given request.params_id data_id;
  method = request.method;
  url = request.url;
  body = sanitized request.body;
  ip = request.ip;
  user_agent = request.user_agent;
}

-- the columns that have defaults are the database's; `id` is what it draws
abbrev pub new_event : ℕ → String → String → OutboxEvent
new_event now id payload = record {
  id = id;
  type = "audit";
  payload = payload;
  created_at = now;
  published_at = none;
  attempts = 0;
  last_error = none;
  scheduled_for = now;
}

-- a failure of the database is logged
abbrev pub persist_outbox : Bool → OutboxEvent → System → System
persist_outbox false event s = s
persist_outbox true event s = record s { events = event ∷ s.events }

-- so is one of the queue
abbrev pub enqueue : Broker → String → System → System
enqueue broker payload s = record s {
  queues = (add_to (broker "audit") (add_audit payload) s.queues).1;
}

-- `returned` is the id of what the handler returned, if it did not raise
module _ (encode : AuditJobData → String) (broker : Broker) (database_answers : Bool) where
  abbrev pub record_event : ℕ → String → String → System → System
  record_event now id payload s =
      enqueue broker payload (persist_outbox database_answers (new_event now id payload) s)

  unfoldable pub intercept :
      Option AuditOptions → Request → Option (Option String) → ℕ → String → System → System
  unfolding job_data
  intercept none request returned now id s = s
  intercept (some options) request none now id s = s
  intercept (some options) request (some data_id) now id s =
      record_event now id (encode (job_data options request data_id)) s

-- An audited request that returns is audited twice: while the database and the queue answer, its job is
-- added to the queue of the audit log, and is added again when its event of the outbox is processed.
pub process-intercept :
    (encode : AuditJobData → String) (broker : Broker) (options : AuditOptions) (request : Request)
    (data_id : Option String) (now later : ℕ) (id : String) (s : System)
    → broker "audit" ≡ none
    → (process later broker id (
        intercept encode broker true (some options) request (some data_id) now id s)).1.queues.audit
      ≡ encode (job_data options request data_id)
        ∷ encode (job_data options request data_id)
        ∷ s.queues.audit
unfolding intercept process route_to_queue
process-intercept encode broker options request data_id now later id s answers =
    let itself : (id == id) ≡ true = ((string_eq.decides id id).1) refl in rw (itself, answers) refl
