-- ===== src/Perfis/Isolation.antt =====
-- Which profiles a request to update, remove or restore one can change:
-- src/perfis/application/services/perfis.service.ts with its repository.
use api_padrao.Prelude.{
  ℕ, String, Bool, true, false, not, Option, none, some, List, [], ◌∷◌, ◌≡◌, refl, ap, ◌∙◌, arith,
  any, find, select_where, update_where, select-update_where, length, ltb, ◌==◌, string_eq, inl,
  inr, Bool-cases, Option-cases,
}
use api_padrao.Payload.{JwtPayload}
use api_padrao.Payload.Authority.{is_admin}
use api_padrao.Http.{
  not_found, conflict, forbidden, perfil_nao_encontrado, nao_esta_deletado, ja_esta_deletado,
  sem_permissao_de_ativar,
}
use api_padrao.Exec.Preserves.{
  Preserves, pure-Preserves, gets-Preserves, modify-Preserves, or_raise-Preserves, bind-Preserves,
  guarded-Preserves, found-Preserves, then_or_raise-Preserves,
}
use api_padrao.Extension.{present}
use api_padrao.Usuarios.Repository.{is_none}
use api_padrao.Cadastro.{PerfilRow, Cadastro, Handler}
use api_padrao.Permissoes.Service.{find_many_by_ids as find_permissoes}
use api_padrao.Permissoes.Repository.{find_many_by_ids as fetch_permissoes}
use api_padrao.Perfis.Repository.{Perfil, UpdatePerfilDto, has_id, scope}
use api_padrao.Perfis.Writes.{
  is_target, changed_by, mark_deleted, mark_restored, violation, write, mark,
}
use api_padrao.Perfis.Writes
use api_padrao.Perfis.Service.{
  Contexto, check_asked, set_ativo, drop_profiles, invalidate_affected, write_fields, apply_update,
  update,
}
use api_padrao.Perfis.Repository
use api_padrao.Perfis.Service

-- the profiles of the other companies
abbrev pub of_others : String → List PerfilRow → List PerfilRow
of_others e rows = select_where (λ (r : PerfilRow). not (r.empresa_id == e)) rows

-- as they were
abbrev IsApart : String → List PerfilRow → Cadastro → Type 0
IsApart e rows c = of_others e c.perfis ≡ rows

module _ (e : String) (rows : List PerfilRow) where
  abbrev Keeps : {A : Type 0} → Handler A → Type 0
  Keeps m = Preserves (IsApart e rows) m

  lookup-Keeps : (now : ℕ) (ids : List ℕ) → Keeps (find_permissoes now ids)
  unfolding find_permissoes
  lookup-Keeps now [] = record { preserves = λ c h. h }
  lookup-Keeps now (i ∷ ids) = record {
    preserves = λ c h.
        elim (Bool-cases (ltb (length (fetch_permissoes (i ∷ ids) c)) (length (i ∷ ids)))) [
          | inl few ↦ rw few h
          | inr enough ↦ rw enough h
        ];
  }

  check-Keeps : (now : ℕ) (ids : Option (List ℕ)) → Keeps (check_asked now ids)
  check-Keeps now none = pure-Preserves (IsApart e rows) tt
  check-Keeps now (some ids) =
      bind-Preserves (IsApart e rows) (lookup-Keeps now ids)
        (λ _. pure-Preserves (IsApart e rows) tt)

  -- a write to rows of the company that leaves them there
  target-IsApart :
      (id : ℕ) (change : PerfilRow → PerfilRow) (table : List PerfilRow)
      → ((r : PerfilRow) → (change r).empresa_id ≡ r.empresa_id)
      → of_others e table ≡ rows
      → of_others e (update_where (is_target (some e) id) change table) ≡ rows
  target-IsApart id change table stays h =
      select-update_where (λ (r : PerfilRow). not (r.empresa_id == e)) (is_target (some e) id)
        change table (λ r t. ground arith)
        (λ r t. ap (λ (s : String). not (s == e)) (stays r) ∙ ground arith)
      ∙ h

  mark-Keeps :
      (scoped : Option String) (id : ℕ) (change : PerfilRow → PerfilRow)
      → scoped ≡ some e
      → ((r : PerfilRow) → (change r).empresa_id ≡ r.empresa_id)
      → Keeps (mark scoped id change)
  unfolding mark
  mark-Keeps scoped id change in_company stays = record {
    preserves = λ c h. rw in_company (target-IsApart id change c.perfis stays h);
  }

  write_found-Keeps :
      (id : ℕ) (change : PerfilRow → PerfilRow) (found : Option PerfilRow)
      → ((r : PerfilRow) → (change r).empresa_id ≡ r.empresa_id)
      → Keeps (Writes.write_found (is_target (some e) id) change found)
  write_found-Keeps id change none stays = record { preserves = λ c h. h }
  write_found-Keeps id change (some row) stays = record {
    preserves = λ c h. elim (Option-cases (violation (change row) c)) [
      | inl fine ↦ rw fine (target-IsApart id change c.perfis stays h)
      | inr (code, broken) ↦ rw broken h
    ];
  }

  write-Keeps :
      (id : ℕ) (change : PerfilRow → PerfilRow)
      → ((r : PerfilRow) → (change r).empresa_id ≡ r.empresa_id)
      → Keeps (write (some e) id change)
  unfolding write
  write-Keeps id change stays = record {
    preserves = λ c h.
        (write_found-Keeps id change (find (is_target (some e) id) c.perfis) stays).preserves c h;
  }

  drop-IsApart :
      (down : Bool) (ids : List ℕ) (c : Cadastro)
      → IsApart e rows c
      → IsApart e rows (drop_profiles down ids c)
  unfolding drop_profiles
  drop-IsApart down [] c h = h
  drop-IsApart true (i ∷ ids) c h = drop-IsApart true ids c h
  drop-IsApart false (i ∷ ids) c h = drop-IsApart false ids (Service.drop_profile false i c) h

  invalidate-Keeps :
      (ctx : Contexto) (id : ℕ) (ids : Option (List ℕ)) → Keeps (invalidate_affected ctx id ids)
  invalidate-Keeps ctx id none = pure-Preserves (IsApart e rows) tt
  invalidate-Keeps ctx id (some ids) =
      bind-Preserves (IsApart e rows)
        (gets-Preserves (IsApart e rows) (Repository.find_user_ids_by_perfil_id ctx.empresa_id id))
        (λ users.
          modify-Preserves (IsApart e rows) (drop_profiles ctx.cache_down users)
            (drop-IsApart ctx.cache_down users))

  module _ (ctx : Contexto) (in_company : present ctx.empresa_id ≡ some e) where
    fields-Keeps :
        (id : ℕ) (dto : UpdatePerfilDto)
        → dto.empresa_id ≡ none
        → Keeps (Writes.update ctx.empresa_id id dto)
    unfolding Writes.update
    fields-Keeps id dto stays = record {
      preserves = λ c h. elim (Bool-cases (any (has_id id) c.perfis)) [
        | inr missing ↦ rw missing h
        | inl there ↦
            rw (there, in_company)
              ((write-Keeps id (changed_by dto) (λ r. rw stays refl)).preserves c h)
      ];
    }

    write_fields-Keeps :
        (id : ℕ) (dto : UpdatePerfilDto) → dto.empresa_id ≡ none → Keeps (write_fields ctx id dto)
    write_fields-Keeps id dto stays =
        bind-Preserves (IsApart e rows) (fields-Keeps id dto stays) λ updated.
          bind-Preserves (IsApart e rows)
            (or_raise-Preserves (IsApart e rows) updated (not_found perfil_nao_encontrado))
            λ perfil.
              bind-Preserves (IsApart e rows) (invalidate-Keeps ctx id dto.permissoes_ids)
                λ _. pure-Preserves (IsApart e rows) perfil

    remove-Keeps : (now id : ℕ) → Keeps (Writes.remove ctx.empresa_id now id)
    unfolding Writes.remove
    remove-Keeps now id =
        then_or_raise-Preserves (IsApart e rows) (not_found perfil_nao_encontrado)
          (mark-Keeps (present ctx.empresa_id) id (mark_deleted now) in_company (λ r. refl))

    restore-Keeps :
        (id : ℕ) (given : Option String) → Keeps (Writes.restore ctx.empresa_id id given)
    unfolding Writes.restore
    restore-Keeps id given =
        then_or_raise-Preserves (IsApart e rows) (not_found perfil_nao_encontrado) (
          mark-Keeps (scope ctx.empresa_id given) id mark_restored (rw (in_company, scope) refl)
            (λ r. refl))

    set_ativo-Keeps :
        (id : ℕ) (given : Option String) (p : Perfil) (ativo : Bool)
        → Keeps (set_ativo ctx id given p ativo)
    set_ativo-Keeps id given p true =
        guarded-Preserves (IsApart e rows) (is_none p.deleted_at) (conflict nao_esta_deletado)
          (restore-Keeps id given)
    set_ativo-Keeps id given p false =
        guarded-Preserves (IsApart e rows) (not (is_none p.deleted_at)) (conflict ja_esta_deletado)
          (remove-Keeps ctx.now id)

    apply-Keeps :
        (id : ℕ) (dto : UpdatePerfilDto) (logado : JwtPayload) (given : Option String) (p : Perfil)
        (ativo : Option Bool)
        → dto.empresa_id ≡ none
        → Keeps (apply_update ctx id dto logado given p ativo)
    apply-Keeps id dto logado given p none stays = write_fields-Keeps id dto stays
    apply-Keeps id dto logado given p (some ativo) stays =
        guarded-Preserves (IsApart e rows) (not (is_admin logado))
          (forbidden sem_permissao_de_ativar) (set_ativo-Keeps id given p ativo)

    update-Keeps :
        (id : ℕ) (dto : UpdatePerfilDto) (logado : JwtPayload) (given : Option String)
        → dto.empresa_id ≡ none
        → Keeps (update ctx id dto logado given)
    unfolding update
    update-Keeps id dto logado given stays =
        bind-Preserves (IsApart e rows) (check-Keeps ctx.now dto.permissoes_ids) λ _.
          found-Preserves (IsApart e rows) (Repository.find_one ctx.empresa_id id true given)
            (not_found perfil_nao_encontrado)
            (λ p. apply-Keeps id dto logado given p dto.ativo stays)

-- In the context of a company, a request to update, remove or restore a profile that does not name
-- a company in its data leaves every profile of the other companies as it was, whatever id it asks
-- for, whatever company its caller passes on, and whether it is answered or raises.
pub update-isolates :
    (e : String) (ctx : Contexto) (id : ℕ) (dto : UpdatePerfilDto) (logado : JwtPayload)
    (given : Option String) (c : Cadastro)
    → present ctx.empresa_id ≡ some e
    → dto.empresa_id ≡ none
    → of_others e (update ctx id dto logado given c).1.perfis ≡ of_others e c.perfis
update-isolates e ctx id dto logado given c in_company stays =
    (update-Keeps e (of_others e c.perfis) ctx in_company id dto logado given stays).preserves c
      refl
