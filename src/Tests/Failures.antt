-- ===== src/Tests/Failures.antt =====
-- Answers to exceptions.
use api_padrao.Prelude.{none, some, [], ◌∷◌, ◌≡◌, refl, codes}
use api_padrao.Filter.Problem.{
  Exception, http, known_request, error, several, with_message, fields, no_target, problem_of, join,
}
use api_padrao.Filter.Reply.{
  absent, present, AdapterResponse, Host, replied, emergency, crashed, fallback_failed, catch,
}
use api_padrao.Filter.Answers.{sent}
use api_padrao.Filter.Opaque.{catch-opaque}

abbrev fastify : AdapterResponse
fastify = record {
  header = present none;
  set_header = absent;
  code = present none;
  status = absent;
  send = present none;
}

abbrev host : Host
host = record {
  response = some fastify;
  path = codes "/auth/login";
  path_raises = none;
  reply_raises = none;
}

abbrev taken_email : Exception
taken_email = known_request "P2002" (fields (codes "email" ∷ codes "nome" ∷ [])) (codes "Unique")

-- a failure of the database, with the text of its error
abbrev timed_out : Exception
timed_out = known_request "P2024" no_target (codes "Timed out")

joined_texts : join (codes "a" ∷ codes "b" ∷ codes "c" ∷ []) ≡ codes "a, b, c"
unfolding join
joined_texts = refl

conflict_detail :
    (problem_of 7 host.path taken_email).detail
    ≡ codes "Conflito de dados: campo 'email, nome' já existe."
unfolding problem_of
conflict_detail = refl

conflict_type : (problem_of 7 host.path taken_email).type ≡ codes "https://api.padrao/problems/409"
unfolding problem_of
conflict_type = refl

validation_code :
    (problem_of 7 host.path (http 400 (with_message (several (codes "nome" ∷ []))) [])).code
    ≡ codes "HTTP_400"
unfolding problem_of
validation_code = refl

conflict_replied : catch 7 taken_email host ≡ replied (problem_of 7 host.path taken_email) 409 ∷ []
unfolding catch
conflict_replied = refl

broken_reply :
    catch 7 taken_email (record host { reply_raises = some (codes "sent") })
    ≡ crashed (codes "sent") ∷ emergency (codes "sent") ∷ []
unfolding catch
broken_reply = refl

no_response :
    catch 7 timed_out (record host { response = none; path_raises = some (codes "no url") })
    ≡ crashed (codes "no url") ∷ fallback_failed ∷ []
unfolding catch
no_response = refl

catch-opaque_example :
    (sent (catch 7 timed_out host) ≡ sent (catch 7 (error (codes "ECONNREFUSED 10.0.0.5")) host))
    × ((problem_of 7 host.path timed_out).status ≡ 500)
catch-opaque_example =
    catch-opaque 7 host timed_out (error (codes "ECONNREFUSED 10.0.0.5")) refl refl
