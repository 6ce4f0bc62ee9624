-- ===== src/Tests/Access.antt =====
-- Guards and the interceptor.
use api_padrao.Prelude.{
  ℕ, String, ◌≡◌, ◌↔◌, refl, arith, true, false, Option, none, some, List, [], ◌∷◌,
}
use api_padrao.Http.{ok, err, unauthorized, usuario_inativo}
use api_padrao.Database.{Database}
use api_padrao.Guards.Strategy.{RequestUser, to_user, validate}
use api_padrao.Guards.Strategy.Staleness.{validate_all, removed_within_a_minute}
use api_padrao.Guards.Permissao.{uma, varias, Incoming, can_activate}
use api_padrao.Guards.Permissao.Exact.{Authorised, permissao_exact}
use api_padrao.Guards.Empresa.{Headers, intercept}
use api_padrao.Guards.Empresa.Tenant.{header_accepted}
use api_padrao.Guards.Pipeline.{Route, HttpCall, Admitted, admit}
use api_padrao.Guards.Pipeline.Sound.{Protected, admitted_sound}
use api_padrao.Tests.Data.{request, ana_row, empty_db, world, payload_with}

abbrev without_ana : Database
without_ana = record empty_db { usuarios = record ana_row { ativo = false } ∷ [] }

removed_within_a_minute_example :
    (validate (request 60050 "") (payload_with "USER") (
      validate_all
        ((request 60 "", payload_with "USER") ∷ [])
        (record (validate_all ((request 50 "", payload_with "USER") ∷ []) world) {
          db = without_ana;
        }))).0
    ≡ err (unauthorized usuario_inativo)
unfolding api_padrao.Guards.Strategy.is_valid_in api_padrao.Prelude.find
removed_within_a_minute_example =
    removed_within_a_minute 1 50 ((request 50 "", payload_with "USER") ∷ [])
      ((request 60 "", payload_with "USER") ∷ []) (request 60050 "") (payload_with "USER") world
      without_ana refl (omega arith, tt) refl refl (omega arith)

abbrev incoming_example : Incoming
incoming_example = record { usuario_logado = some (payload_with "USER"); x_empresa_id = some "e1" }

permissao_exact_example :
    ((can_activate (some (varias ("WRITE" ∷ "READ" ∷ []))) incoming_example).0 ≡ ok true)
    ↔ Authorised ("WRITE" ∷ "READ" ∷ []) incoming_example
permissao_exact_example =
    permissao_exact (some (varias ("WRITE" ∷ "READ" ∷ []))) incoming_example refl

abbrev headers : String → Headers
headers tenant = record { x_request_id = none; x_empresa_id = some tenant }

header_accepted_example :
    intercept (some (to_user (payload_with "USER"))) (headers "e2") "u"
    ≡ ok (record { empresa_id = some "e2"; usuario_id = none; request_id = some "u" })
unfolding validate api_padrao.Prelude.find
header_accepted_example =
    header_accepted (request 10 "") (payload_with "USER") world
      {user = to_user (payload_with "USER")}
      {w' = (validate (request 10 "") (payload_with "USER") world).1} (headers "e2") "u" "e2" refl
      refl refl

abbrev route : Route
route = record { is_public = false; permissoes = some (uma "READ") }

abbrev call : HttpCall
call = record { token = some (payload_with "USER"); headers = headers "e1"; ip = none; uuid = "u" }

abbrev admitted : Admitted
admitted = record {
  tracker = 105 ∷ 112 ∷ 58 ∷ 117 ∷ 110 ∷ 107 ∷ 110 ∷ 111 ∷ 119 ∷ 110 ∷ [];
  user = some (to_user (payload_with "USER"));
  empresa_context = some (record {
    id = "e1";
    perfis =
        some (record { codigo = "USER"; permissoes = some (record { codigo = "READ" } ∷ []) } ∷ []);
  });
  context = record { empresa_id = some "e1"; usuario_id = none; request_id = some "u" };
}

admitted_sound_example : Protected (request 10 "") route call world
unfolding admit api_padrao.Prelude.find api_padrao.Prelude.any
admitted_sound_example =
    admitted_sound (request 10 "") route call world admitted
      (admit (request 10 "") route call world).1 refl refl refl
