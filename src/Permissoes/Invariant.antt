-- ===== src/Permissoes/Invariant.antt =====
-- What every request of src/permissoes/application/services/permissoes.service.ts keeps true of the
-- table of permissions.
use api_padrao.Prelude.{
  ℕ, ◌≡◌, refl, Bool, true, false, Option, none, some, List, [], ◌∷◌, nat_eq, inl, inr, not, ltb,
  length, Bool-cases,
}
use api_padrao.Payload.{JwtPayload}
use api_padrao.Payload.Authority.{is_admin}
use api_padrao.Http.{
  not_found, conflict, forbidden, permissao_nao_encontrada, nome_ja_existe, nao_esta_deletado,
  ja_esta_deletado, sem_permissao_de_restaurar, sem_permissao_de_deletar,
}
use api_padrao.Exec.Preserves.{
  Preserves, gets-Preserves, bind-Preserves, guarded-Preserves, found-Preserves,
  then_or_raise-Preserves,
}
use api_padrao.Usuarios.Repository.{is_none}
use api_padrao.Cadastro.{Permissao, Cadastro}
use api_padrao.Permissoes.Repository.{
  CreatePermissaoDto, UpdatePermissaoDto, has_id, new_row, takes_name, mark_deleted, mark_restored,
  changed_by, write,
}
use api_padrao.Permissoes.Repository
use api_padrao.Permissoes.Service.{set_ativo, apply_update}
use api_padrao.Permissoes.Service
use api_padrao.Permissoes.Consistent.{
  IsConsistent, create-Preserves, repository_remove-Preserves, repository_restore-Preserves,
  repository_update-Preserves,
}

set_ativo-Preserves :
    (now id : ℕ) (logado : JwtPayload) (p : Permissao) (ativo : Bool)
    → Preserves IsConsistent (set_ativo now id logado p ativo)
set_ativo-Preserves now id logado p true =
    guarded-Preserves IsConsistent (is_none p.deleted_at) (conflict nao_esta_deletado) (
      guarded-Preserves IsConsistent (not (is_admin logado)) (forbidden sem_permissao_de_restaurar)
        (repository_restore-Preserves id))
set_ativo-Preserves now id logado p false =
    guarded-Preserves IsConsistent (not (is_none p.deleted_at)) (conflict ja_esta_deletado) (
      guarded-Preserves IsConsistent (not (is_admin logado)) (forbidden sem_permissao_de_deletar)
        (repository_remove-Preserves now id))

apply_update-Preserves :
    (now id : ℕ) (dto : UpdatePermissaoDto) (logado : JwtPayload) (p : Permissao)
    (ativo : Option Bool)
    → dto.ativo ≡ ativo
    → Preserves IsConsistent (apply_update now id dto logado p ativo)
apply_update-Preserves now id dto logado p (some ativo) e =
    set_ativo-Preserves now id logado p ativo
apply_update-Preserves now id dto logado p none e =
    then_or_raise-Preserves IsConsistent (not_found permissao_nao_encontrada)
      (repository_update-Preserves id dto e)

service_create-Preserves : (dto : CreatePermissaoDto) → Preserves IsConsistent (Service.create dto)
unfolding Service.create
service_create-Preserves dto =
    bind-Preserves IsConsistent
      (gets-Preserves IsConsistent (Repository.find_by_nome dto.nome false))
      (λ o.
        guarded-Preserves IsConsistent (not (is_none o)) (conflict nome_ja_existe)
          (create-Preserves dto))

service_update-Preserves :
    (now id : ℕ) (dto : UpdatePermissaoDto) (logado : JwtPayload)
    → Preserves IsConsistent (Service.update now id dto logado)
unfolding Service.update
service_update-Preserves now id dto logado =
    found-Preserves IsConsistent (Repository.find_one id true) (not_found permissao_nao_encontrada)
      (λ p. apply_update-Preserves now id dto logado p dto.ativo refl)

service_remove-Preserves :
    (now id : ℕ) (logado : JwtPayload) → Preserves IsConsistent (Service.remove now id logado)
unfolding Service.remove
service_remove-Preserves now id logado =
    found-Preserves IsConsistent (Repository.find_one id false) (not_found permissao_nao_encontrada)
      (λ p.
        guarded-Preserves IsConsistent (not (is_admin logado)) (forbidden sem_permissao_de_deletar)
          (repository_remove-Preserves now id))

service_restore-Preserves :
    (id : ℕ) (logado : JwtPayload) → Preserves IsConsistent (Service.restore id logado)
unfolding Service.restore
service_restore-Preserves id logado =
    found-Preserves IsConsistent (Repository.find_one id true) (not_found permissao_nao_encontrada)
      (λ p. guarded-Preserves IsConsistent (is_none p.deleted_at) (conflict nao_esta_deletado) (
        guarded-Preserves IsConsistent (not (is_admin logado))
          (forbidden sem_permissao_de_restaurar) (repository_restore-Preserves id)))

find_many-Preserves :
    (now : ℕ) (ids : List ℕ) → Preserves IsConsistent (Service.find_many_by_ids now ids)
unfolding Service.find_many_by_ids
find_many-Preserves now [] = record { preserves = λ c h. h }
find_many-Preserves now (i ∷ ids) = record {
  preserves = λ c h.
      let fetched = Repository.find_many_by_ids (i ∷ ids) c in
      elim (Bool-cases (ltb (length fetched) (length (i ∷ ids)))) [
        | inl few ↦ rw few (record { rows = h.rows; ids = h.ids })
        | inr enough ↦ rw enough (record { rows = h.rows; ids = h.ids })
      ];
}

-- a request to the service, whether it is answered or raises
pub data Step : Cadastro → Cadastro → Type 0 where
  creates : (dto : CreatePermissaoDto) (c : Cadastro) → Step c (Service.create dto c).1
  updates :
      (now id : ℕ) (dto : UpdatePermissaoDto) (logado : JwtPayload) (c : Cadastro)
      → Step c (Service.update now id dto logado c).1
  removes :
      (now id : ℕ) (logado : JwtPayload) (c : Cadastro) → Step c (Service.remove now id logado c).1
  looks_up : (now : ℕ) (ids : List ℕ) (c : Cadastro) → Step c (Service.find_many_by_ids now ids c).1
  restores : (id : ℕ) (logado : JwtPayload) (c : Cadastro) → Step c (Service.restore id logado c).1

pub data Reaches (c : Cadastro) : Cadastro → Type 0 where
  at_start : Reaches c c
  after : {d e : Cadastro} → Reaches c d → Step d e → Reaches c e

Step-IsConsistent : {c d : Cadastro} → Step c d → IsConsistent c → IsConsistent d
Step-IsConsistent (creates dto c) h = (service_create-Preserves dto).preserves c h
Step-IsConsistent (updates now id dto logado c) h =
    (service_update-Preserves now id dto logado).preserves c h
Step-IsConsistent (removes now id logado c) h =
    (service_remove-Preserves now id logado).preserves c h
Step-IsConsistent (looks_up now ids c) h = (find_many-Preserves now ids).preserves c h
Step-IsConsistent (restores id logado c) h = (service_restore-Preserves id logado).preserves c h

-- From a table where each permission has an id of its own that the sequence has given, and is
-- `ativo` exactly when it has no `deletedAt`, every sequence of requests to create, update, remove,
-- restore and look up permissions, answered or refused, leads to such a table again.
pub Reaches-IsConsistent : {c d : Cadastro} → Reaches c d → IsConsistent c → IsConsistent d
Reaches-IsConsistent at_start h = h
Reaches-IsConsistent (after r st) h = Step-IsConsistent st (Reaches-IsConsistent r h)
