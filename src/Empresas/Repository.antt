-- ===== src/Empresas/Repository.antt =====
-- The companies of src/empresas/infrastructure/repositories/prisma-empresa.repository.ts, all through
-- the extended client: a read sees no deleted row, a write by id reaches one, `delete` is an update
-- (Extension). The table is not scoped to the context's company.
use api_padrao.Prelude.{
  ℕ, String, Text, Bool, true, false, not, ◌&&◌, Option, none, some, List, [], ◌∷◌, any, find,
  select_where, update_where, length, map, leb, ◌==◌, nat_eq, string_eq, if◌then◌else◌,
}
use mathlib.Core.Option
use api_padrao.Http.{unexpected, ok, err}
use api_padrao.Database.{UsuarioRow}
use api_padrao.Usuarios.Repository.{is_none}
use api_padrao.Usuarios.Listing.{PaginationDto, take, drop}
use api_padrao.Permissoes.Service.{paginated}
use api_padrao.Cadastro.{EmpresaRow, Cadastro, Handler, Paginated}

-- src/empresas/domain/entities/empresa.entity.ts; a field that a query does not select is none
pub record Empresa : Type 0 where
  pub id : String
  pub nome : Text
  pub descricao : Option String
  pub responsavel_id : Option ℕ
  pub plano : String
  pub ativo : Bool
  pub created_at : ℕ
  pub updated_at : ℕ
  pub deleted_at : Option ℕ

pub record CreateEmpresaDto : Type 0 where
  pub nome : Text
  pub descricao : Option String
  pub responsavel_id : ℕ

pub record UpdateEmpresaDto : Type 0 where
  pub nome : Option Text
  pub descricao : Option String
  pub responsavel_id : Option ℕ

abbrev pub to_empresa : EmpresaRow → Empresa
to_empresa row = record {
  id = row.id;
  nome = row.nome;
  descricao = row.descricao;
  responsavel_id = some row.responsavel_id;
  plano = row.plano;
  ativo = row.ativo;
  created_at = row.created_at;
  updated_at = row.updated_at;
  deleted_at = row.deleted_at;
}

abbrev pub has_id : String → EmpresaRow → Bool
has_id id row = row.id == id

abbrev pub is_live : EmpresaRow → Bool
is_live row = is_none row.deleted_at

-- the foreign key `responsavelId`
abbrev pub is_user : ℕ → UsuarioRow → Bool
is_user id u = u.id == id

abbrev pub new_row : ℕ → String → CreateEmpresaDto → EmpresaRow
new_row now id dto = record {
  id = id;
  nome = dto.nome;
  descricao = dto.descricao;
  responsavel_id = dto.responsavel_id;
  plano = "FREE";
  ativo = true;
  created_at = now;
  updated_at = now;
  deleted_at = none;
}

-- `id` is what `@default(uuid())` gives
unfoldable pub create : ℕ → String → CreateEmpresaDto → Handler Empresa
unfolding any
create now id dto c =
    if any (has_id id) c.empresas
    then (err (unexpected 2002), c)
    else if not (any (is_user dto.responsavel_id) c.usuarios)
    then (err (unexpected 2003), c)
    else (
      ok (to_empresa (new_row now id dto)),
      record c { empresas = new_row now id dto ∷ c.empresas },
    )

-- `orderBy: { createdAt: 'desc' }`; rows of one instant stay in the order of the table
unfoldable pub insert_newest : EmpresaRow → List EmpresaRow → List EmpresaRow
insert_newest e [] = e ∷ []
insert_newest e (f ∷ fs) =
    let rest = insert_newest e fs in if leb f.created_at e.created_at then e ∷ f ∷ fs else f ∷ rest

unfoldable pub newest_first : List EmpresaRow → List EmpresaRow
unfolding insert_newest
newest_first [] = []
newest_first (e ∷ es) = insert_newest e (newest_first es)

unfoldable pub find_all : PaginationDto → Cadastro → Paginated Empresa
unfolding take drop select_where newest_first
find_all dto c =
    let rows = select_where is_live c.empresas in
    paginated dto
      (λ skip limit. (map to_empresa (take limit (drop skip (newest_first rows))), length rows))

unfoldable pub find_one : String → Cadastro → Option Empresa
unfolding find
find_one id c = Option.map to_empresa (find (λ r. is_live r && has_id id r) c.empresas)

abbrev pub changed_by : ℕ → UpdateEmpresaDto → EmpresaRow → EmpresaRow
changed_by now dto row = record row {
  nome = Option.get_or dto.nome row.nome;
  descricao = elim dto.descricao [ some d ↦ some d | none ↦ row.descricao ];
  responsavel_id = Option.get_or dto.responsavel_id row.responsavel_id;
  updated_at = now;
}

-- the selection has no `descricao` and no `responsavelId`
abbrev pub to_partial : EmpresaRow → Empresa
to_partial row = record (to_empresa row) { descricao = none; responsavel_id = none }

abbrev pub update_row : ℕ → String → UpdateEmpresaDto → Option EmpresaRow → Handler Empresa
update_row now id dto none c = (err (unexpected 2025), c)
update_row now id dto (some row) c =
    if not (any (is_user (changed_by now dto row).responsavel_id) c.usuarios)
    then (err (unexpected 2003), c)
    else (
      ok (to_partial (changed_by now dto row)),
      record c { empresas = update_where (has_id id) (changed_by now dto) c.empresas },
    )

unfoldable pub update : ℕ → String → UpdateEmpresaDto → Handler Empresa
unfolding find any update_where
update now id dto c = update_row now id dto (find (has_id id) c.empresas) c

abbrev pub mark_deleted : ℕ → EmpresaRow → EmpresaRow
mark_deleted now row = record row { deleted_at = some now; ativo = false }

unfoldable pub remove : ℕ → String → Handler (Unit {0})
unfolding any update_where
remove now id c =
    if any (has_id id) c.empresas
    then (ok tt, record c { empresas = update_where (has_id id) (mark_deleted now) c.empresas })
    else (err (unexpected 2025), c)
