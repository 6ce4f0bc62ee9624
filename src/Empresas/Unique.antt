-- ===== src/Empresas/Unique.antt =====
-- One membership for each pair of a user and a company, as `@@unique([usuarioId, empresaId])` of
-- prisma/schema.prisma asks, under src/empresas/application/services/empresas.service.ts.
use api_padrao.Prelude.{
  ℕ, ◌≤◌, String, not, Option, none, some, List, any, find, count_where, inl, inr, Bool-cases,
  Option-cases,
}
use api_padrao.Http.{
  not_found, empresa_nao_encontrada, usuario_nao_encontrado, perfil_nao_encontrado,
}
use api_padrao.World.{Ports, Mail}
use api_padrao.Exec.Preserves.{
  Preserves, gets-Preserves, or_raise-Preserves, bind-Preserves, guarded-Preserves, found-Preserves,
}
use api_padrao.Usuarios.Entity.{Usuario}
use api_padrao.Cadastro.{Cadastro, EmpresaRow}
use api_padrao.Perfis.Repository.{Perfil, find_many_by_ids}
use api_padrao.Empresas.Repository.{
  Empresa, CreateEmpresaDto, UpdateEmpresaDto, has_id, is_user, changed_by, update_row,
}
use api_padrao.Empresas.Repository
use api_padrao.Empresas.Memberships.{is_membership, lists_perfil, add_user_to_company}
use api_padrao.Empresas.Table.{upsert-count}
use api_padrao.Empresas.Service.{
  AddUsuarioEmpresaDto, find_usuario, some_missing, notify, join_company, join_found,
}
use api_padrao.Empresas.Service

abbrev pub IsUnique : Cadastro → Type 0
IsUnique c = (v : ℕ) (g : String) → count_where (is_membership v g) c.usuario_empresas ≤ 1

upsert-Preserves :
    (empresa_id : String) (usuario_id : ℕ) (ids : List ℕ)
    → Preserves IsUnique (add_user_to_company empresa_id usuario_id ids)
unfolding add_user_to_company
upsert-Preserves empresa_id usuario_id ids = record {
  preserves = λ c h. elim (Bool-cases (any (λ id. not (lists_perfil c.perfis id)) ids)) [
    | inl missing ↦ rw missing h
    | inr fine ↦
        rw fine (λ v g. upsert-count usuario_id v empresa_id g ids c.usuario_empresas (h v g))
  ];
}

notify-Preserves : (ports : Ports) (mail : Mail) → Preserves IsUnique (notify ports mail)
notify-Preserves ports mail = record {
  preserves = λ c h. elim (Option-cases (ports.send_failure mail)) [
    | inl taken ↦ rw (taken, notify) h
    | inr (e, failed) ↦ rw (failed, notify) h
  ];
}

join-Preserves :
    (ports : Ports) (empresa_id : String) (dto : AddUsuarioEmpresaDto) (e : Empresa) (u : Usuario)
    (perfis : List Perfil)
    → Preserves IsUnique (join_company ports empresa_id dto e u perfis)
join-Preserves ports empresa_id dto e u perfis =
    guarded-Preserves IsUnique (some_missing perfis dto.perfil_ids)
      (not_found perfil_nao_encontrado)
      (bind-Preserves IsUnique (upsert-Preserves empresa_id dto.usuario_id dto.perfil_ids)
        (λ _. notify-Preserves ports (Service.added_mail ports u e perfis)))

find_one-Preserves : (id : String) → Preserves IsUnique (Service.find_one id)
unfolding Service.find_one
find_one-Preserves id =
    bind-Preserves IsUnique (gets-Preserves IsUnique (Repository.find_one id))
      (λ o. or_raise-Preserves IsUnique o (not_found empresa_nao_encontrada))

add_user-Preserves :
    (ports : Ports) (context : Option String) (empresa_id : String) (dto : AddUsuarioEmpresaDto)
    → Preserves IsUnique (Service.add_user ports context empresa_id dto)
unfolding Service.add_user
add_user-Preserves ports context empresa_id dto =
    bind-Preserves IsUnique (find_one-Preserves empresa_id) (λ e.
      found-Preserves IsUnique (find_usuario dto.usuario_id) (not_found usuario_nao_encontrado)
        (λ u.
          bind-Preserves IsUnique
            (gets-Preserves IsUnique (find_many_by_ids context dto.perfil_ids))
            (λ perfis. join-Preserves ports empresa_id dto e u perfis)))

create-Preserves :
    (now : ℕ) (id : String) (dto : CreateEmpresaDto)
    → Preserves IsUnique (Service.create now id dto)
unfolding Service.create Repository.create
create-Preserves now id dto = record {
  preserves = λ c h. elim (Bool-cases (any (has_id id) c.empresas)) [
    | inl taken ↦ rw taken h
    | inr new ↦ rw new (elim (Bool-cases (any (is_user dto.responsavel_id) c.usuarios)) [
      | inl there ↦ rw there h
      | inr missing ↦ rw missing h
    ])
  ];
}

update_row-Preserves :
    (now : ℕ) (id : String) (dto : UpdateEmpresaDto) (found : Option EmpresaRow)
    → Preserves IsUnique (update_row now id dto found)
update_row-Preserves now id dto none = record { preserves = λ c h. h }
update_row-Preserves now id dto (some row) = record {
  preserves = λ c h.
      elim (Bool-cases (any (is_user (changed_by now dto row).responsavel_id) c.usuarios)) [
        | inl there ↦ rw there h
        | inr missing ↦ rw missing h
      ];
}

write-Preserves :
    (now : ℕ) (id : String) (dto : UpdateEmpresaDto)
    → Preserves IsUnique (Repository.update now id dto)
unfolding Repository.update
write-Preserves now id dto = record {
  preserves = λ c h. (update_row-Preserves now id dto (find (has_id id) c.empresas)).preserves c h;
}

delete-Preserves : (now : ℕ) (id : String) → Preserves IsUnique (Repository.remove now id)
unfolding Repository.remove
delete-Preserves now id = record {
  preserves = λ c h. elim (Bool-cases (any (has_id id) c.empresas)) [
    | inl there ↦ rw there h
    | inr missing ↦ rw missing h
  ];
}

update-Preserves :
    (now : ℕ) (id : String) (dto : UpdateEmpresaDto)
    → Preserves IsUnique (Service.update now id dto)
unfolding Service.update
update-Preserves now id dto =
    bind-Preserves IsUnique (find_one-Preserves id) (λ _. write-Preserves now id dto)

remove-Preserves : (now : ℕ) (id : String) → Preserves IsUnique (Service.remove now id)
unfolding Service.remove
remove-Preserves now id =
    bind-Preserves IsUnique (find_one-Preserves id) (λ _. delete-Preserves now id)

-- a request to the service, whether it is answered or raises
pub data Step (ports : Ports) : Cadastro → Cadastro → Type 0 where
  creates :
      (now : ℕ) (id : String) (dto : CreateEmpresaDto) (c : Cadastro)
      → Step ports c (Service.create now id dto c).1
  updates :
      (now : ℕ) (id : String) (dto : UpdateEmpresaDto) (c : Cadastro)
      → Step ports c (Service.update now id dto c).1
  removes : (now : ℕ) (id : String) (c : Cadastro) → Step ports c (Service.remove now id c).1
  adds_user :
      (context : Option String) (id : String) (dto : AddUsuarioEmpresaDto) (c : Cadastro)
      → Step ports c (Service.add_user ports context id dto c).1

pub data Reaches (ports : Ports) (c : Cadastro) : Cadastro → Type 0 where
  at_start : Reaches ports c c
  after : {d e : Cadastro} → Reaches ports c d → Step ports d e → Reaches ports c e

Step-IsUnique : {ports : Ports} {c d : Cadastro} → Step ports c d → IsUnique c → IsUnique d
Step-IsUnique (creates now id dto c) h = (create-Preserves now id dto).preserves c h
Step-IsUnique (updates now id dto c) h = (update-Preserves now id dto).preserves c h
Step-IsUnique (removes now id c) h = (remove-Preserves now id).preserves c h
Step-IsUnique {ports} (adds_user context id dto c) h =
    (add_user-Preserves ports context id dto).preserves c h

-- From a table with at most one membership for each pair of a user and a company, every sequence of
-- requests to the service of companies, answered or refused, leads to such a table again: adding a
-- user again never makes a second row.
pub Reaches-IsUnique :
    {ports : Ports} {c d : Cadastro} → Reaches ports c d → IsUnique c → IsUnique d
Reaches-IsUnique at_start h = h
Reaches-IsUnique (after r st) h = Step-IsUnique st (Reaches-IsUnique r h)
