-- ===== src/Tests/Audits.antt =====
-- Audited requests.
use api_padrao.Prelude.{String, Option, none, some, false, true, [], ◌∷◌, ◌≡◌, refl, codes}
use api_padrao.Outbox.{System, process}
use api_padrao.Auditoria.Interceptor.{
  AuditOptions, Request, AuditJobData, sanitize_body, job_data, intercept, process-intercept,
}

-- case does not matter, and a longer key is left alone
masked :
    sanitize_body ((codes "Senha", "s3nh4") ∷ (codes "tokenType", "jwt") ∷ [])
    ≡ (codes "Senha", "********") ∷ (codes "tokenType", "jwt") ∷ []
unfolding sanitize_body api_padrao.Prelude.text_beq
masked = refl

abbrev criar : AuditOptions
criar = record { acao = "CRIAR"; recurso = "EMPRESA" }

abbrev request : Request
request = record {
  user_id = some 1;
  method = "POST";
  url = "/empresas";
  body = none;
  params_id = none;
  ip = none;
  user_agent = none;
}

abbrev encode : AuditJobData → String
encode job = job.acao

abbrev system : System
system = record {
  events = [];
  queues = record { audit = []; email = []; refresh_flush = [] };
  outbox = [];
  polling = false;
}

failure_not_audited :
    intercept encode (λ _. none) true (some criar) request none 5 "e1" system ≡ system
unfolding intercept
failure_not_audited = refl

process-intercept_example :
    (process 9
      (λ _. none)
      "e1"
      (intercept encode
        (λ _. none)
        true
        (some criar)
        request
        (some none)
        5
        "e1"
        system)).1.queues.audit
    ≡ "CRIAR" ∷ "CRIAR" ∷ []
unfolding job_data
process-intercept_example =
    process-intercept encode (λ _. none) criar request none 5 9 "e1" system refl
