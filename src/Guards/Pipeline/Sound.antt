-- ===== src/Guards/Pipeline/Sound.antt =====
-- What is known of a request that reaches a protected controller.
use mathlib.Core.Option
use api_padrao.Prelude.{
  ℕ, String, ◌≡◌, refl, sym, ap, ◌∙◌, Bool, true, false, Option, none, some, List, [], ◌∷◌, map,
  arith, string_eq, Option-cases, inl, inr, ◌⊎◌,
}
use api_padrao.Payload.{PermissaoJwt, PerfilJwt, EmpresaJwt, JwtPayload}
use api_padrao.Http.{Result, HttpException, ok, err}
use api_padrao.World.{World, Request}
use api_padrao.Guards.Strategy.{
  RequestUser, copy_permissao, copy_perfil, copy_empresa, to_user, validity, validate,
}
use api_padrao.Guards.Permissao.{Permissoes, Incoming, is_unrestricted, required_of, can_activate}
use api_padrao.Guards.Permissao.Exact.{Authorised, permissao_exact}
use api_padrao.Guards.Pipeline.{Route, HttpCall, Admitted, with_token, auth_guard, enter, admit}
use api_padrao.Exec.{pure, >>=-ok}

map-fixed : {A : Type 0} (f : A → A) → ((x : A) → f x ≡ x) → (xs : List A) → map f xs ≡ xs
map-fixed f h [] = refl
map-fixed f h (x ∷ xs) = ground (arith, h x, map-fixed f h xs)

list-fixed :
    {A : Type 0} (f : A → A)
    → ((x : A) → f x ≡ x)
    → (o : Option (List A)) → Option.map (map f) o ≡ o
list-fixed f h none = refl
list-fixed f h (some xs) = ap some (map-fixed f h xs)

copy_perfil-id : (perfil : PerfilJwt) → copy_perfil perfil ≡ perfil
unfolding copy_perfil
copy_perfil-id perfil =
    ap (λ (o : Option (List PermissaoJwt)). record { codigo = perfil.codigo; permissoes = o })
      (list-fixed copy_permissao (λ p. refl) perfil.permissoes)

copy_empresa-id : (empresa : EmpresaJwt) → copy_empresa empresa ≡ empresa
unfolding copy_empresa
copy_empresa-id empresa =
    ap (λ (o : Option (List PerfilJwt)). record { id = empresa.id; perfis = o })
      (list-fixed copy_perfil copy_perfil-id empresa.perfis)

-- The strategy hands over the companies of the token as they are.
pub to_user-empresas :
    (payload : JwtPayload) → (to_user payload).payload.empresas ≡ payload.empresas
unfolding to_user
to_user-empresas payload = list-fixed copy_empresa copy_empresa-id payload.empresas

-- the permissions are decided by the companies alone
abbrev pub incoming : JwtPayload → HttpCall → Incoming
incoming payload call = record {
  usuario_logado = some payload;
  x_empresa_id = call.headers.x_empresa_id;
}

-- the check of validity, which a token that names no user passes
abbrev pub passes_validity : Request → Option ℕ → World → Bool
passes_validity req none w = true
passes_validity req (some id) w = (validity req id w).0

pub record Protected (req : Request) (route : Route) (call : HttpCall) (w : World) : Type 0 where
  pub payload : JwtPayload
  pub verified : call.token ≡ some payload
  pub valid : passes_validity req payload.sub w ≡ true
  pub authorised : Authorised (required_of route.permissoes) (incoming payload call)

validate-ok :
    (req : Request) (payload : JwtPayload) (w : World) {user : RequestUser} {w' : World}
    → validate req payload w ≡ (ok user, w')
    → (user ≡ to_user payload) × (passes_validity req payload.sub w ≡ true)
unfolding validate
validate-ok req payload w e = (ground arith, ground arith)

moved :
    (required : List String) (payload : JwtPayload) (call : HttpCall)
    → Authorised required (incoming (to_user payload).payload call)
    → Authorised required (incoming payload call)
moved required payload call a = record {
  empresas = a.empresas;
  id = a.id;
  vinculo = a.vinculo;
  logged = sym (to_user-empresas payload) ∙ a.logged;
  header = a.header;
  grants = a.grants;
}

Result-cases :
    {A : Type 0} (r : Result A) → ((a : A) × (r ≡ ok a)) ⊎ ((e : HttpException) × (r ≡ err e))
Result-cases (ok a) = inl (a, refl)
Result-cases (err e) = inr (e, refl)

never_false :
    (metadata : Option Permissoes) (request : Incoming) {b : Bool}
    → (can_activate metadata request).0 ≡ ok b
    → b ≡ true
unfolding can_activate
never_false metadata request {b} e = ground (arith, e)

enter-ok :
    (route : Route) (call : HttpCall) (user : RequestUser) (w : World) {admitted : Admitted}
    {w' : World}
    → enter route call (some user) w ≡ (ok admitted, w')
    → (can_activate route.permissoes (incoming user.payload call)).0 ≡ ok true
unfolding enter
enter-ok route call user w e =
    elim (Result-cases (can_activate route.permissoes (incoming user.payload call)).0) [
      | inl (b, allowed) ↦
          allowed
          ∙ ap (λ (x : Bool). ok x)
              (never_false route.permissoes (incoming user.payload call) allowed)
      | inr (x, refused) ↦ absurd (ground (arith, refused, e))
    ]

with_token-ok :
    (req : Request) (payload : JwtPayload) (w : World) {u : Option RequestUser} {w' : World}
    → with_token req (some payload) w ≡ (ok u, w')
    → (user : RequestUser) × (w₁ : World) × (validate req payload w ≡ (ok user, w₁))
      × (u ≡ some user)
with_token-ok req payload w e =
    let (user, w₁, validated, given) =
      >>=-ok (validate req payload) (λ user. pure (some user)) w e in
    (user, w₁, validated, ground (arith, given))

admit-ok :
    (req : Request) (route : Route) (call : HttpCall) (w : World) (payload : JwtPayload)
    {admitted : Admitted} {w' : World}
    → route.is_public ≡ false
    → call.token ≡ some payload
    → admit req route call w ≡ (ok admitted, w')
    → (user : RequestUser) × (w₁ : World) × (validate req payload w ≡ (ok user, w₁))
      × ((can_activate route.permissoes (incoming user.payload call)).0 ≡ ok true)
unfolding admit
admit-ok req route call w payload {admitted} {w'} closed token e =
    let (u, w₁, authenticated, rest) = >>=-ok (auth_guard req route call) (enter route call) w e in
    let (user, w₂, validated, given) =
      with_token-ok req payload w {u = u} {w' = w₁} (ground (arith, authenticated)) in
    (
      user,
      w₂,
      validated,
      enter-ok route call user w₁ {admitted = admitted} {w' = w'} (ground (arith, rest)),
    )

-- A request that reaches the controller of a route that is not public and asks for permissions has
-- a verified token; the user of the token passes the check of validity, where the token names one;
-- and the companies of the token grant a permission that is asked for.
pub admitted_sound :
    (req : Request) (route : Route) (call : HttpCall) (w : World) (admitted : Admitted) (w' : World)
    → route.is_public ≡ false
    → is_unrestricted route.permissoes ≡ false
    → admit req route call w ≡ (ok admitted, w')
    → Protected req route call w
unfolding admit
admitted_sound req route call w admitted w' closed asks e = elim (Option-cases call.token) [
  | inl no_token ↦ absurd (ground arith)
  | inr (payload, token) ↦
      let (user, w₁, validated, passed) = admit-ok req route call w payload closed token e in
      let (same, valid) = validate-ok req payload w validated in
      record {
        payload = payload;
        verified = token;
        valid = valid;
        authorised =
            moved (required_of route.permissoes) payload call
              ((permissao_exact route.permissoes _ asks).0 (rw same at passed));
      }
]
