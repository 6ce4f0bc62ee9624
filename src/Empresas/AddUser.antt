-- ===== src/Empresas/AddUser.antt =====
-- `addUser` of src/empresas/application/services/empresas.service.ts: what it refuses, and what a
-- membership is afterwards.
pub mod Joined
use api_padrao.Prelude.{
  ℕ, String, Bool, true, false, not, ◌&&◌, Option, none, some, List, [], ◌∷◌, ◌++◌, ◌≡◌, refl, sym,
  ap, ◌∙◌, arith, any, find, select_where, update_where, includes, map, ◌==◌, nat_eq, string_eq,
  nat_beq_iff, inl, inr, Bool-cases, Option-cases, if◌then◌else◌, find-some, find-none, any-imp,
  any-same, find-update_where, find-holds,
}
use mathlib.Core.Option
use api_padrao.Http.{
  Motivo, Result, not_found, empresa_nao_encontrada, usuario_nao_encontrado, perfil_nao_encontrado,
  ok, err,
}
use api_padrao.Database.{UsuarioRow}
use api_padrao.World.{Ports, Mail}
use api_padrao.Exec.{>>=-step}
use api_padrao.Usuarios.Repository.{map_to_entity}
use api_padrao.Cadastro.{PerfilRow, EmpresaRow, UsuarioEmpresaRow, Cadastro}
use api_padrao.Perfis.Repository.{is_visible, find_many_by_ids, to_domain, Perfil}
use api_padrao.Usuarios.Entity.{Usuario}
use api_padrao.Empresas.Repository.{Empresa, to_empresa, is_live}
use api_padrao.Empresas.Repository
use api_padrao.Empresas.Memberships.{
  is_membership, lists_perfil, set_perfis, upsert, add_user_to_company,
}
use api_padrao.Empresas.Table.{perfis_of, is_pair, perfis_of-upsert}
use api_padrao.Empresas.Service.{
  AddUsuarioEmpresaDto, find_one, is_live_user, find_usuario, some_missing, join_company,
  join_found, added_mail, notify, add_user,
}
use api_padrao.Empresas.Lookup.{
  live_empresa, lacks, first_missing, missing-lacks, all-listed, company-found, company-none,
  user-found, user-none,
}

module _ (ports : Ports) (context : Option String) (empresa_id : String)
    (dto : AddUsuarioEmpresaDto) (c : Cadastro) where
  found_company :
      {e : Empresa} → Repository.find_one empresa_id c ≡ some e → find_one empresa_id c ≡ (ok e, c)
  unfolding find_one
  found_company found = rw found refl

  reaches_join :
      {e : Empresa} {u : Usuario}
      → Repository.find_one empresa_id c ≡ some e
      → find_usuario dto.usuario_id c ≡ some u
      → add_user ports context empresa_id dto c
        ≡ join_company ports empresa_id dto e u (find_many_by_ids context dto.perfil_ids c) c
  unfolding add_user
  reaches_join {e} {u} found known =
      >>=-step (find_one empresa_id) (join_found ports context empresa_id dto) c
        (found_company found)
      ∙ rw known refl

  stops_at_company :
      Repository.find_one empresa_id c ≡ none
      → add_user ports context empresa_id dto c ≡ (err (not_found empresa_nao_encontrada), c)
  unfolding add_user find_one
  stops_at_company e = ground (arith, e)

  stops_at_user :
      {e : Empresa}
      → Repository.find_one empresa_id c ≡ some e
      → find_usuario dto.usuario_id c ≡ none
      → add_user ports context empresa_id dto c ≡ (err (not_found usuario_nao_encontrado), c)
  unfolding add_user find_one
  stops_at_user e u = cc (e, u)

  stops_at_perfil :
      (empresa : Empresa) (usuario : Usuario)
      → any (lacks context c.perfis) dto.perfil_ids ≡ true
      → join_company ports empresa_id dto empresa usuario
          (find_many_by_ids context dto.perfil_ids c)
          c
        ≡ (err (not_found perfil_nao_encontrado), c)
  stops_at_perfil empresa usuario h = rw (missing-lacks context dto.perfil_ids c, h) refl

  -- `addUser` raises "not found", and changes nothing, for the first thing that is missing: a
  -- company that is not deleted, a user who is not deleted, or, for one of the ids, a profile that
  -- is not deleted and that the company of the context can see.
  pub add_user-refuses :
      {m : Motivo}
      → first_missing context empresa_id dto c ≡ some m
      → add_user ports context empresa_id dto c ≡ (err (not_found m), c)
  unfolding first_missing
  add_user-refuses {m} h = elim (Bool-cases (any (live_empresa empresa_id) c.empresas)) [
    | inr no_company ↦
        cc (rw no_company at h, stops_at_company (company-none empresa_id c no_company))
    | inl company ↦
        let (e, found) = company-found empresa_id c company in
        elim (Bool-cases (any (is_live_user dto.usuario_id) c.usuarios)) [
          | inr no_user ↦
              cc (
                rw (company, no_user) at h,
                stops_at_user found (user-none dto.usuario_id c no_user),
              )
          | inl user ↦
              let (u, known) = user-found dto.usuario_id c user in
              elim (Bool-cases (any (lacks context c.perfis) dto.perfil_ids)) [
                | inl lacking ↦ cc (
                  rw (company, user, lacking) at h,
                  reaches_join found known,
                  stops_at_perfil e u lacking,
                )
                | inr all_there ↦ cc (rw (company, user, all_there) at h)
              ]
        ]
  ]

  written :
      any (lacks context c.perfis) dto.perfil_ids ≡ false
      → add_user_to_company empresa_id dto.usuario_id dto.perfil_ids c ≡ (
        ok tt,
        record c {
          usuario_empresas = upsert dto.usuario_id empresa_id dto.perfil_ids c.usuario_empresas;
        },
      )
  unfolding add_user_to_company
  written h = rw (all-listed context c.perfis dto.perfil_ids h) refl

  passes_join :
      (empresa : Empresa) (usuario : Usuario)
      → any (lacks context c.perfis) dto.perfil_ids ≡ false
      → join_company ports empresa_id dto empresa usuario
          (find_many_by_ids context dto.perfil_ids c)
          c
        ≡ notify ports
            (added_mail ports usuario empresa (find_many_by_ids context dto.perfil_ids c))
            (record c {
              usuario_empresas = upsert dto.usuario_id empresa_id dto.perfil_ids c.usuario_empresas;
            })
  passes_join empresa usuario h =
      let mail = added_mail ports usuario empresa (find_many_by_ids context dto.perfil_ids c) in
      rw (missing-lacks context dto.perfil_ids c, h)
        (>>=-step (add_user_to_company empresa_id dto.usuario_id dto.perfil_ids)
          (λ _. notify ports mail) c (written h))

  complete_parts :
      first_missing context empresa_id dto c ≡ none
      → (any (live_empresa empresa_id) c.empresas ≡ true)
        × (any (is_live_user dto.usuario_id) c.usuarios ≡ true)
        × (any (lacks context c.perfis) dto.perfil_ids ≡ false)
  unfolding first_missing
  complete_parts h = ground arith

  -- where nothing is missing, the run is the upsert and the e-mail
  pub runs_complete :
      first_missing context empresa_id dto c ≡ none
      → (e : Empresa) × (u : Usuario) × (find_usuario dto.usuario_id c ≡ some u)
        × (add_user ports context empresa_id dto c
            ≡ notify ports
                (added_mail ports u e (find_many_by_ids context dto.perfil_ids c))
                (record c {
                  usuario_empresas =
                      upsert dto.usuario_id empresa_id dto.perfil_ids c.usuario_empresas;
                }))
  runs_complete h =
      let (company, user, in_sight) = complete_parts h in
      let (e, found) = company-found empresa_id c company in
      let (u, known) = user-found dto.usuario_id c user in
      (e, u, known, reaches_join found known ∙ passes_join e u in_sight)
