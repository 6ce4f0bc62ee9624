-- ===== src/Guards/Permissao.antt =====
-- src/auth/application/guards/permissao.guard.ts: may a user call a route that asks for permissions?
pub mod Exact
use mathlib.Core.Option
use api_padrao.Prelude.{
  String, Bool, true, false, not, ◌||◌, Option, none, some, List, [], ◌∷◌, any, find, ◌==◌,
  string_eq, if◌then◌else◌,
}
use api_padrao.Payload.{PermissaoJwt, PerfilJwt, EmpresaJwt, JwtPayload}
use api_padrao.Payload.Authority.{some?}
use api_padrao.Http.{
  Result, HttpException, forbidden, sem_empresas, empresa_nao_informada, sem_acesso_a_empresa,
  sem_permissao, ok, err,
}

-- `string | string[]`, the metadata of the decorator
pub data Permissoes : Type 0 where
  uma : String → Permissoes
  varias : List String → Permissoes

abbrev pub permissoes_array : Permissoes → List String
permissoes_array (uma codigo) = codigo ∷ []
permissoes_array (varias codigos) = codigos

-- `!requiredPermissoes`: an empty text counts as missing, an empty array does not
abbrev pub is_unrestricted : Option Permissoes → Bool
is_unrestricted none = true
is_unrestricted (some (uma codigo)) = codigo == ""
is_unrestricted (some (varias codigos)) = false

-- what the guard reads of the request
pub record Incoming : Type 0 where
  pub usuario_logado : Option JwtPayload
  pub x_empresa_id : Option String

-- what it answers, and the `empresaContext` that it has attached
abbrev pub Verdict : Type 0
Verdict = Result Bool × Option EmpresaJwt

abbrev pub refuse : HttpException → Option EmpresaJwt → Verdict
refuse e context = (err e, context)

abbrev pub is_required : List String → PermissaoJwt → Bool
is_required required permissao = any (λ codigo. codigo == permissao.codigo) required

abbrev pub gives_required : List String → PerfilJwt → Bool
gives_required required perfil = some? (is_required required) perfil.permissoes

abbrev pub decide : List String → EmpresaJwt → Option (List PerfilJwt) → Verdict
decide required vinculo none = refuse (forbidden sem_acesso_a_empresa) none
decide required vinculo (some perfis) =
    if any (gives_required required) perfis
    then (ok true, some vinculo)
    else refuse (forbidden sem_permissao) (some vinculo)

abbrev pub with_vinculo : List String → Option EmpresaJwt → Verdict
with_vinculo required none = refuse (forbidden sem_acesso_a_empresa) none
with_vinculo required (some vinculo) = decide required vinculo vinculo.perfis

abbrev pub is_empresa : String → EmpresaJwt → Bool
is_empresa id e = e.id == id

abbrev pub with_header : List String → List EmpresaJwt → String → Verdict
with_header required empresas empresa_id =
    if empresa_id == ""
    then refuse (forbidden empresa_nao_informada) none
    else with_vinculo required (find (is_empresa empresa_id) empresas)

abbrev pub with_empresas : List String → Option (List EmpresaJwt) → Option String → Verdict
with_empresas required none header = refuse (forbidden sem_empresas) none
with_empresas required (some empresas) header =
    with_header required empresas (Option.get_or header "")

abbrev pub empresas_logadas : Option JwtPayload → Option (List EmpresaJwt)
empresas_logadas none = none
empresas_logadas (some user) = user.empresas

abbrev pub required_of : Option Permissoes → List String
required_of none = []
required_of (some permissoes) = permissoes_array permissoes

unfoldable pub can_activate : Option Permissoes → Incoming → Verdict
can_activate metadata request =
    if is_unrestricted metadata
    then (ok true, none)
    else with_empresas (required_of metadata) (empresas_logadas request.usuario_logado)
        request.x_empresa_id
