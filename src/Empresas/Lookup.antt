-- ===== src/Empresas/Lookup.antt =====
-- What `addUser` of src/empresas/application/services/empresas.service.ts looks for, as tests on the
-- tables, and what its lookups find.
use api_padrao.Prelude.{
  ℕ, String, Bool, true, false, not, ◌&&◌, Option, none, some, List, [], ◌∷◌, ◌≡◌, refl, ap, arith,
  any, select_where, includes, map, ◌==◌, nat_eq, string_eq, nat_beq_iff, if◌then◌else◌, find-some,
  find-none, any-imp, any-same,
}
use mathlib.Core.Option
use api_padrao.Http.{Motivo, empresa_nao_encontrada, usuario_nao_encontrado, perfil_nao_encontrado}
use api_padrao.Usuarios.Repository.{map_to_entity}
use api_padrao.Cadastro.{PerfilRow, EmpresaRow, Cadastro}
use api_padrao.Perfis.Repository.{is_visible, find_many_by_ids, to_domain, Perfil}
use api_padrao.Usuarios.Entity.{Usuario}
use api_padrao.Empresas.Repository.{Empresa, to_empresa, is_live}
use api_padrao.Empresas.Repository
use api_padrao.Empresas.Memberships.{lists_perfil}
use api_padrao.Empresas.Service.{AddUsuarioEmpresaDto, is_live_user, find_usuario, some_missing}

abbrev pub live_empresa : String → EmpresaRow → Bool
live_empresa id row = is_live row && Repository.has_id id row

-- no profile that the context sees has this id
unfoldable pub lacks : Option String → List PerfilRow → ℕ → Bool
unfolding any
lacks context perfis id =
    not (any (λ (p : PerfilRow). is_visible context none false p && (p.id == id)) perfis)

-- the first thing that is missing: the company, the user, a profile
unfoldable pub first_missing :
    Option String → String → AddUsuarioEmpresaDto → Cadastro → Option Motivo
unfolding any lacks
first_missing context empresa_id dto c =
    if not (any (live_empresa empresa_id) c.empresas)
    then some empresa_nao_encontrada
    else if not (any (is_live_user dto.usuario_id) c.usuarios)
    then some usuario_nao_encontrado
    else if any (lacks context c.perfis) dto.perfil_ids
    then some perfil_nao_encontrado
    else none

-- a profile is among those fetched when the context sees it and it was asked for
any-fetched :
    (context : Option String) (id : ℕ) (ids : List ℕ) (perfis : List PerfilRow)
    → includes id ids ≡ true
    → any
        (λ (p : Perfil). p.id == id)
        (map
          (λ r. to_domain r none)
          (select_where
            (λ (r : PerfilRow). is_visible context none false r && includes r.id ids)
            perfis))
      ≡ any (λ (p : PerfilRow). is_visible context none false p && (p.id == id)) perfis
unfolding any select_where
any-fetched context id ids [] m = refl
any-fetched context id ids (r ∷ rs) m = ground (
  arith,
  any-fetched context id ids rs m,
  nat_beq_iff r.id id,
  λ (e : r.id ≡ id). ap (λ k. includes k ids) e,
)

pub missing-lacks :
    (context : Option String) (ids : List ℕ) (c : Cadastro)
    → some_missing (find_many_by_ids context ids c) ids ≡ any (lacks context c.perfis) ids
unfolding some_missing find_many_by_ids lacks
missing-lacks context [] c = refl
missing-lacks context (i ∷ ids) c =
    any-same _ _ (i ∷ ids) (λ k m. ap not (any-fetched context k (i ∷ ids) c.perfis m))

-- what the context sees is in the table
pub all-listed :
    (context : Option String) (perfis : List PerfilRow) (ids : List ℕ)
    → any (lacks context perfis) ids ≡ false
    → any (λ id. not (lists_perfil perfis id)) ids ≡ false
unfolding any lacks
all-listed context perfis [] h = refl
all-listed context perfis (i ∷ ids) h = ground (
  arith,
  all-listed context perfis ids,
  any-imp (λ (p : PerfilRow). is_visible context none false p && (p.id == i))
      (λ (p : PerfilRow). p.id == i) perfis (λ p. ground arith),
)

pub company-found :
    (id : String) (c : Cadastro)
    → any (live_empresa id) c.empresas ≡ true
    → (e : Empresa) × (Repository.find_one id c ≡ some e)
unfolding Repository.find_one
company-found id c h =
    let (e, found) = find-some (live_empresa id) c.empresas h in
    (to_empresa e, ap (Option.map to_empresa) found)

pub company-none :
    (id : String) (c : Cadastro)
    → any (live_empresa id) c.empresas ≡ false
    → Repository.find_one id c ≡ none
unfolding Repository.find_one
company-none id c h = ap (Option.map to_empresa) (find-none (live_empresa id) c.empresas h)

pub user-found :
    (id : ℕ) (c : Cadastro)
    → any (is_live_user id) c.usuarios ≡ true
    → (u : Usuario) × (find_usuario id c ≡ some u)
unfolding find_usuario
user-found id c h =
    let (u, found) = find-some (is_live_user id) c.usuarios h in
    (map_to_entity u, ap (Option.map map_to_entity) found)

pub user-none :
    (id : ℕ) (c : Cadastro) → any (is_live_user id) c.usuarios ≡ false → find_usuario id c ≡ none
unfolding find_usuario
user-none id c h = ap (Option.map map_to_entity) (find-none (is_live_user id) c.usuarios h)
