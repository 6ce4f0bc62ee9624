-- ===== src/Guards/Permissao/Exact.antt =====
-- When the guard of permissions lets a request pass.
use mathlib.Core.Option
use api_padrao.Prelude.{
  String, ◌≡◌, refl, sym, ap, true, false, Option, some, List, Memᴰ, find, any-Mem, Mem-any, arith,
  ◌==◌, string_eq, eq_iff, Option-cases, inl, inr, ◌↔◌,
}
use api_padrao.Payload.{PermissaoJwt, PerfilJwt, EmpresaJwt}
use api_padrao.Http.{ok}
use api_padrao.Guards.Permissao.{
  Permissoes, is_unrestricted, required_of, Incoming, is_required, gives_required, is_empresa,
  empresas_logadas, can_activate,
}

-- the company of the header holds a profile with one of the required permissions
pub record Grants (required : List String) (empresas : List EmpresaJwt) (id : String)
    (vinculo : EmpresaJwt) : Type 0 where
  pub named : (id == "") ≡ false
  pub found : find (is_empresa id) empresas ≡ some vinculo
  pub perfis : List PerfilJwt
  pub perfil : PerfilJwt
  pub permissoes : List PermissaoJwt
  pub permissao : PermissaoJwt
  pub with_perfis : vinculo.perfis ≡ some perfis
  pub has_perfil : Memᴰ perfil perfis
  pub with_permissoes : perfil.permissoes ≡ some permissoes
  pub has_permissao : Memᴰ permissao permissoes
  pub is_asked : Memᴰ permissao.codigo required

gives-Mem :
    (required : List String) (perfil : PerfilJwt)
    → gives_required required perfil ≡ true
    → (permissoes : List PermissaoJwt) × (permissao : PermissaoJwt) × (perfil.permissoes
        ≡ some permissoes)
      × Memᴰ permissao permissoes
      × Memᴰ permissao.codigo required
gives-Mem required perfil h = elim (Option-cases perfil.permissoes) [
  | inl none_given ↦ absurd (ground arith)
  | inr (permissoes, given) ↦
      let (permissao, m, asked) = any-Mem (is_required required) permissoes (ground arith) in
      let (codigo, n, same) =
        any-Mem (λ (codigo : String). codigo == permissao.codigo) required asked in
      (permissoes, permissao, given, m, rw (sym ((eq_iff codigo permissao.codigo).0 same)) n)
]

Mem-gives :
    (required : List String) (perfil : PerfilJwt) (permissoes : List PermissaoJwt)
    (permissao : PermissaoJwt)
    → perfil.permissoes ≡ some permissoes
    → Memᴰ permissao permissoes
    → Memᴰ permissao.codigo required
    → gives_required required perfil ≡ true
Mem-gives required perfil permissoes permissao given m asked =
    let any_codigo =
      Mem-any (λ (codigo : String). codigo == permissao.codigo) required asked
        ((eq_iff permissao.codigo permissao.codigo).1 refl) in
    let any_permissao = Mem-any (is_required required) permissoes m any_codigo in ground arith

-- who may pass, and with which company attached
pub record Authorised (required : List String) (request : Incoming) : Type 0 where
  pub empresas : List EmpresaJwt
  pub id : String
  pub vinculo : EmpresaJwt
  pub logged : empresas_logadas request.usuario_logado ≡ some empresas
  pub header : request.x_empresa_id ≡ some id
  pub grants : Grants required empresas id vinculo

passes :
    (metadata : Option Permissoes) (request : Incoming)
    → is_unrestricted metadata ≡ false
    → (a : Authorised (required_of metadata) request)
    → can_activate metadata request ≡ (ok true, some a.vinculo)
unfolding can_activate
passes metadata request asks a =
    let g = a.grants in
    let gives =
      Mem-gives (required_of metadata) g.perfil g.permissoes g.permissao g.with_permissoes
        g.has_permissao g.is_asked in
    let given = Mem-any (gives_required (required_of metadata)) g.perfis g.has_perfil gives in
    ground (arith, asks, a.logged, a.header, g.named, g.found, g.with_perfis, given)

passed :
    (metadata : Option Permissoes) (request : Incoming)
    → is_unrestricted metadata ≡ false
    → (can_activate metadata request).0 ≡ ok true
    → Authorised (required_of metadata) request
unfolding can_activate
passed metadata request asks e = elim (Option-cases (empresas_logadas request.usuario_logado)) [
  | inl nobody ↦ absurd (ground arith)
  | inr (empresas, logged) ↦ elim (Option-cases request.x_empresa_id) [
    | inl no_header ↦
        let empty : (Option.get_or request.x_empresa_id "" == "") ≡ true =
          ap (λ (h : Option String). Option.get_or h "" == "") no_header in
        absurd (ground arith)
    | inr (id, header) ↦ elim (Option-cases (find (is_empresa id) empresas)) [
      | inl unknown ↦ absurd (ground arith)
      | inr (vinculo, found) ↦ elim (Option-cases vinculo.perfis) [
        | inl no_perfis ↦ absurd (ground arith)
        | inr (perfis, with_perfis) ↦
            let (perfil, m, gives) =
              any-Mem (gives_required (required_of metadata)) perfis (ground arith) in
            let (permissoes, permissao, given, n, asked) =
              gives-Mem (required_of metadata) perfil gives in
            record {
              empresas = empresas;
              id = id;
              vinculo = vinculo;
              logged = logged;
              header = header;
              grants = record {
                named = ground arith;
                found = found;
                perfis = perfis;
                perfil = perfil;
                permissoes = permissoes;
                permissao = permissao;
                with_perfis = with_perfis;
                has_perfil = m;
                with_permissoes = given;
                has_permissao = n;
                is_asked = asked;
              };
            }
      ]
    ]
  ]
]

-- On a route that asks for permissions the guard lets a request pass exactly when its user has
-- companies, the header names one of them, and a profile of that company holds a permission whose
-- code is among those asked for.
pub permissao_exact :
    (metadata : Option Permissoes) (request : Incoming)
    → is_unrestricted metadata ≡ false
    → ((can_activate metadata request).0 ≡ ok true) ↔ Authorised (required_of metadata) request
permissao_exact metadata request asks =
    (passed metadata request asks, λ a. ap (λ v. v.0) (passes metadata request asks a))
