-- ===== src/Perfis/Invalidation.antt =====
-- The cached profiles of users after a change of the permissions of a profile:
-- `update` of src/perfis/application/services/perfis.service.ts.
use api_padrao.Prelude.{
  ℕ, String, Bool, true, false, ◌&&◌, ◌||◌, Option, none, some, List, [], ◌∷◌, ◌++◌, ◌≡◌, refl, sym,
  ap, subst, ◌∙◌, arith, any, find, includes, length, ltb, ◌==◌, nat_eq, nat_beq_iff, inl, inr,
  Bool-cases, Option-cases, if◌then◌else◌, includes-map_select, includes-append_one, map,
  select_where,
}
use api_padrao.Payload.{JwtPayload}
use api_padrao.Http.{Result, ok}
use api_padrao.Exec.{>>=-ok}
use api_padrao.Exec.Preserves.{Preserves, pure-Preserves, bind-Preserves}
use api_padrao.Extension.{present}
use api_padrao.Cadastro.{PerfilRow, UsuarioEmpresaRow, Cadastro}
use api_padrao.Permissoes.Service.{find_many_by_ids as find_permissoes}
use api_padrao.Permissoes.Repository.{find_many_by_ids as fetch_permissoes}
use api_padrao.Perfis.Repository.{
  Perfil, UpdatePerfilDto, collect, grants_perfil, find_user_ids_by_perfil_id, has_id,
}
use api_padrao.Perfis.Writes.{is_target, violation, write, write_found, changed_by}
use api_padrao.Perfis.Writes
use api_padrao.Perfis.Repository
use api_padrao.Perfis.Service.{
  Contexto, check_asked, drop_profiles, drop_profile, answer_updated, write_fields, update_checked,
  apply_update, update,
}

-- The loop over `seen` and `out` gives the ids of the rows, whatever repeats.
includes-collect :
    (u : ℕ) (rows seen out : List ℕ)
    → ((v : ℕ) → includes v seen ≡ includes v out)
    → includes u (collect rows seen out) ≡ (includes u out || includes u rows)
unfolding collect includes any
includes-collect u [] seen out same = ground arith
includes-collect u (r ∷ rows) seen out same = elim (Bool-cases (includes r seen)) [
  | inl old ↦ ground (
    arith,
    includes-collect u rows seen out same,
    same u,
    nat_beq_iff r u,
    λ (e : r ≡ u). ap (λ k. includes k seen) e,
  )
  | inr new ↦ ground (
    arith,
    includes-collect u rows (r ∷ seen) (out ++ r ∷ [])
        (λ v. ap (λ b. (r == v) || b) (same v) ∙ ground (arith, includes-append_one v r out)),
    includes-append_one u r out,
  )
]

pub includes-find_user_ids :
    (u perfil_id : ℕ) (context : Option String) (c : Cadastro)
    → includes u (find_user_ids_by_perfil_id context perfil_id c)
      ≡ any
          (λ (v : UsuarioEmpresaRow).
            grants_perfil (present context) perfil_id v && (v.usuario_id == u))
          c.usuario_empresas
unfolding find_user_ids_by_perfil_id
includes-find_user_ids u perfil_id context c =
    includes-collect u
      (map (λ (v : UsuarioEmpresaRow). v.usuario_id)
        (select_where (grants_perfil (present context) perfil_id) c.usuario_empresas))
      [] [] (λ v. refl)
    ∙ includes-map_select u (λ (v : UsuarioEmpresaRow). v.usuario_id)
        (grants_perfil (present context) perfil_id) c.usuario_empresas

drop-profiles :
    (u : ℕ) (ids : List ℕ) (c : Cadastro)
    → (drop_profiles false ids c).profiles u ≡ (if includes u ids then none else c.profiles u)
unfolding drop_profiles includes any
drop-profiles u [] c = refl
drop-profiles u (i ∷ ids) c = ground (arith, drop-profiles u ids (drop_profile false i c))

-- What comes before the invalidation touches neither the cache nor the memberships.
pub record IsUntouched (d c : Cadastro) : Type 0 where
  pub cached : c.profiles ≡ d.profiles
  pub joined : c.usuario_empresas ≡ d.usuario_empresas

module _ (d : Cadastro) where
  lookup-Keeps : (now : ℕ) (ids : List ℕ) → Preserves (IsUntouched d) (find_permissoes now ids)
  unfolding find_permissoes
  lookup-Keeps now [] = record { preserves = λ c h. h }
  lookup-Keeps now (i ∷ ids) = record {
    preserves = λ c h.
        elim (Bool-cases (ltb (length (fetch_permissoes (i ∷ ids) c)) (length (i ∷ ids)))) [
          | inl few ↦ rw few (record { cached = h.cached; joined = h.joined })
          | inr enough ↦ rw enough (record { cached = h.cached; joined = h.joined })
        ];
  }

  check-Keeps : (now : ℕ) (ids : Option (List ℕ)) → Preserves (IsUntouched d) (check_asked now ids)
  check-Keeps now none = pure-Preserves (IsUntouched d) tt
  check-Keeps now (some ids) =
      bind-Preserves (IsUntouched d) (lookup-Keeps now ids) (λ _. pure-Preserves (IsUntouched d) tt)

  found-Keeps :
      (target : PerfilRow → Bool) (change : PerfilRow → PerfilRow) (found : Option PerfilRow)
      → Preserves (IsUntouched d) (write_found target change found)
  found-Keeps target change none = record { preserves = λ c h. h }
  found-Keeps target change (some row) = record {
    preserves = λ c h. elim (Option-cases (violation (change row) c)) [
      | inl fine ↦ rw fine (record { cached = h.cached; joined = h.joined })
      | inr (code, broken) ↦ rw broken h
    ];
  }

  fields-Keeps :
      (context : Option String) (id : ℕ) (dto : UpdatePerfilDto)
      → Preserves (IsUntouched d) (Writes.update context id dto)
  unfolding Writes.update write
  fields-Keeps context id dto = record {
    preserves = λ c h. elim (Bool-cases (any (has_id id) c.perfis)) [
      | inr missing ↦ rw missing h
      | inl there ↦ rw there (
          (found-Keeps (is_target (present context) id) (changed_by dto)
              (find (is_target (present context) id) c.perfis)).preserves
            c h)
    ];
  }

answered :
    (ctx : Contexto) (id u : ℕ) (ids : List ℕ) (updated : Option Perfil) (c : Cadastro) {p : Perfil}
    {c' : Cadastro}
    → answer_updated ctx id (some ids) updated c ≡ (ok p, c')
    → c'.profiles u
      ≡ (drop_profiles ctx.cache_down (find_user_ids_by_perfil_id ctx.empresa_id id c) c).profiles u
answered ctx id u ids none c e = cc
answered ctx id u ids (some q) c e = ap (λ (r : Result Perfil × Cadastro). r.1.profiles u) (sym e)

-- from a state that differs in neither from the one of the request
dropped :
    (ctx : Contexto) (id u : ℕ) (c d : Cadastro)
    → IsUntouched d c
    → ctx.cache_down ≡ false
    → (drop_profiles ctx.cache_down (find_user_ids_by_perfil_id ctx.empresa_id id c) c).profiles u
      ≡ (if any
            (λ (v : UsuarioEmpresaRow).
              grants_perfil (present ctx.empresa_id) id v && (v.usuario_id == u))
            d.usuario_empresas
          then none
          else d.profiles u)
dropped ctx id u c d h up =
    let users = find_user_ids_by_perfil_id ctx.empresa_id id c in
    rw up (
      drop-profiles u users c
      ∙ rw (includes-find_user_ids u id ctx.empresa_id c, h.joined, h.cached) refl)

fields-invalidate :
    (ctx : Contexto) (id u : ℕ) (dto : UpdatePerfilDto) (ids : List ℕ) (c d : Cadastro) {p : Perfil}
    {c' : Cadastro}
    → IsUntouched d c
    → ctx.cache_down ≡ false
    → dto.permissoes_ids ≡ some ids
    → write_fields ctx id dto c ≡ (ok p, c')
    → c'.profiles u ≡ (
        if any
          (λ (v : UsuarioEmpresaRow).
            grants_perfil (present ctx.empresa_id) id v && (v.usuario_id == u))
          d.usuario_empresas
        then none
        else d.profiles u)
fields-invalidate ctx id u dto ids c d {p} {c'} h up asked e =
    let (updated, c₁, write_ok, rest) =
      >>=-ok (Writes.update ctx.empresa_id id dto) (answer_updated ctx id dto.permissoes_ids) c e in
    let untouched : IsUntouched d c₁ =
      subst (λ (s : Cadastro). IsUntouched d s)
        (ap (λ (r : Result (Option Perfil) × Cadastro). r.1) write_ok)
        ((fields-Keeps d ctx.empresa_id id dto).preserves c h) in
    answered ctx id u ids updated c₁ (rw asked at rest) ∙ dropped ctx id u c₁ d untouched up

without_ativo :
    (ctx : Contexto) (id : ℕ) (dto : UpdatePerfilDto) (logado : JwtPayload) (given : Option String)
    (q : Perfil) (ativo : Option Bool) (c : Cadastro) {p : Perfil} {c' : Cadastro}
    → ativo ≡ none
    → apply_update ctx id dto logado given q ativo c ≡ (ok p, c')
    → write_fields ctx id dto c ≡ (ok p, c')
without_ativo ctx id dto logado given q none c no_ativo e = e
without_ativo ctx id dto logado given q (some b) c no_ativo e = cc

reaches_write :
    (ctx : Contexto) (id : ℕ) (dto : UpdatePerfilDto) (logado : JwtPayload) (given : Option String)
    (c : Cadastro) {p : Perfil} {c' : Cadastro}
    → dto.ativo ≡ none
    → update_checked ctx id dto logado given c ≡ (ok p, c')
    → write_fields ctx id dto c ≡ (ok p, c')
reaches_write ctx id dto logado given c no_ativo e =
    elim (Option-cases (Repository.find_one ctx.empresa_id id true given c)) [
      | inl missing ↦ cc (rw missing at e)
      | inr (q, found) ↦
          without_ativo ctx id dto logado given q dto.ativo c no_ativo (rw found at e)
    ]

-- An update of a profile that names permissions, and not `ativo`, and that returns, has removed
-- from the cache (which is up) the entry of each user who has the profile in a company that the
-- context sees, and of no one else: every other user's entry is as it was.
pub update-invalidates :
    (ctx : Contexto) (id u : ℕ) (dto : UpdatePerfilDto) (ids : List ℕ) (logado : JwtPayload)
    (given : Option String) (c : Cadastro) {p : Perfil} {c' : Cadastro}
    → ctx.cache_down ≡ false
    → dto.ativo ≡ none
    → dto.permissoes_ids ≡ some ids
    → update ctx id dto logado given c ≡ (ok p, c')
    → c'.profiles u ≡ (
        if any
          (λ (v : UsuarioEmpresaRow).
            grants_perfil (present ctx.empresa_id) id v && (v.usuario_id == u))
          c.usuario_empresas
        then none
        else c.profiles u)
unfolding update
update-invalidates ctx id u dto ids logado given c {p} {c'} up no_ativo asked e =
    let check = check_asked ctx.now dto.permissoes_ids in
    let (_, c₁, check_ok, rest) = >>=-ok check (λ _. update_checked ctx id dto logado given) c e in
    let start : IsUntouched c c = record { cached = refl; joined = refl } in
    let untouched : IsUntouched c c₁ =
      subst (λ (s : Cadastro). IsUntouched c s)
        (ap (λ (r : Result (Unit {0}) × Cadastro). r.1) check_ok)
        ((check-Keeps c ctx.now dto.permissoes_ids).preserves c start) in
    fields-invalidate ctx id u dto ids c₁ c untouched up asked
      (reaches_write ctx id dto logado given c₁ no_ativo rest)
