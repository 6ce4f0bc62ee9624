-- ===== src/Perfis/Writes.antt =====
-- The writes of src/perfis/infrastructure/repositories/prisma-perfil.repository.ts, with the
-- constraints of the table: `nome` and `codigo` are unique in a company, deleted rows included
-- (P2002), the company exists (P2003), and so do the permissions that are joined (P2025).
use api_padrao.Prelude.{
  ℕ, suc, String, Bool, true, false, not, ◌&&◌, ◌||◌, Option, none, some, List, [], ◌∷◌, ◌++◌, any,
  find, update_where, ◌==◌, nat_eq, string_eq, text_eq, if◌then◌else◌,
}
use mathlib.Core.Option
use api_padrao.Http.{not_found, unexpected, perfil_nao_encontrado, ok, err}
use api_padrao.Exec.{or_raise, ◌>>=◌}
use api_padrao.Extension.{present}
use api_padrao.Cadastro.{PermissaoRow, PerfilRow, EmpresaRow, Cadastro, Handler}
use api_padrao.Perfis.Repository.{
  Perfil, CreatePerfilDto, UpdatePerfilDto, joined, has_id, is_of, scope,
}

-- the company of an insert: the context's where the request names none
abbrev pub company_for : Option String → String → String
company_for none given = given
company_for (some e) given = if given == "" then e else given

abbrev pub new_row : ℕ → String → CreatePerfilDto → PerfilRow
new_row id empresa_id dto = record {
  id = id;
  nome = dto.nome;
  codigo = dto.codigo;
  descricao = dto.descricao;
  empresa_id = empresa_id;
  permissoes = Option.get_or dto.permissoes_ids [];
  deleted_at = none;
  ativo = true;
}

-- two different rows that a unique index keeps apart
abbrev pub collides : PerfilRow → PerfilRow → Bool
collides new old =
    not (old.id == new.id)
    && (old.empresa_id == new.empresa_id)
    && (old.nome == new.nome || old.codigo == new.codigo)

abbrev pub lists_permissao : List PermissaoRow → ℕ → Bool
lists_permissao rows id = any (λ (p : PermissaoRow). p.id == id) rows

-- the error of a write that would leave this row in the table, by its Prisma code
unfoldable pub violation : PerfilRow → Cadastro → Option ℕ
unfolding any
violation row c =
    if any (collides row) c.perfis
    then some 2002
    else if not (any (λ (e : EmpresaRow). e.id == row.empresa_id) c.empresas)
    then some 2003
    else if any (λ id. not (lists_permissao c.permissoes id)) row.permissoes
    then some 2025
    else none

abbrev pub insert_checked : PerfilRow → Cadastro → Option ℕ → Handler Perfil
insert_checked row old (some code) c = (err (unexpected code), c)
insert_checked row old none c =
    (ok (joined old.permissoes row), record c { perfis = old.perfis ++ row ∷ [] })

-- an insert that fails has used up a value of the sequence
unfoldable pub create : Option String → CreatePerfilDto → Handler Perfil
unfolding violation joined present
create context dto c =
    let row = new_row c.perfil_seq (company_for (present context) dto.empresa_id) dto in
    insert_checked row c (violation row c) (record c { perfil_seq = suc c.perfil_seq })

abbrev pub changed_by : UpdatePerfilDto → PerfilRow → PerfilRow
changed_by dto row = record row {
  nome = Option.get_or dto.nome row.nome;
  codigo = Option.get_or dto.codigo row.codigo;
  descricao = Option.get_or dto.descricao row.descricao;
  empresa_id = Option.get_or dto.empresa_id row.empresa_id;
  permissoes = Option.get_or dto.permissoes_ids row.permissoes;
  ativo = Option.get_or dto.ativo row.ativo;
}

-- the row that an update by id through the extended client reaches
abbrev pub is_target : Option String → ℕ → PerfilRow → Bool
is_target empresa id row = has_id id row && is_of empresa row

abbrev pub write_checked :
    (PerfilRow → Bool) → (PerfilRow → PerfilRow) → PerfilRow → Option ℕ → Handler (Option Perfil)
write_checked target change row (some code) c =
    (if code == 2025 then ok none else err (unexpected code), c)
write_checked target change row none c = (
  ok (some (joined c.permissoes (change row))),
  record c { perfis = update_where target change c.perfis },
)

abbrev pub write_found :
    (PerfilRow → Bool) → (PerfilRow → PerfilRow) → Option PerfilRow → Handler (Option Perfil)
write_found target change none c = (ok none, c)
write_found target change (some row) c =
    write_checked target change row (violation (change row) c) c

-- an update through the extended client, where none is P2025
unfoldable pub write : Option String → ℕ → (PerfilRow → PerfilRow) → Handler (Option Perfil)
unfolding find update_where violation joined
write empresa id change c =
    write_found (is_target empresa id) change (find (is_target empresa id) c.perfis) c

-- the first read is the plain client's, so it finds the rows of every company
unfoldable pub update : Option String → ℕ → UpdatePerfilDto → Handler (Option Perfil)
unfolding any write present
update context id dto c =
    if any (has_id id) c.perfis then write (present context) id (changed_by dto) c else (ok none, c)

abbrev pub mark_deleted : ℕ → PerfilRow → PerfilRow
mark_deleted now row = record row { deleted_at = some now; ativo = false }

abbrev pub mark_restored : PerfilRow → PerfilRow
mark_restored row = record row { deleted_at = none; ativo = true }

-- A write of `deletedAt` and `ativo` alone, which no constraint concerns.
unfoldable pub mark : Option String → ℕ → (PerfilRow → PerfilRow) → Handler (Option Perfil)
unfolding find update_where joined
mark empresa id change c = (
  ok (Option.map (λ r. joined c.permissoes (change r)) (find (is_target empresa id) c.perfis)),
  record c { perfis = update_where (is_target empresa id) change c.perfis },
)

unfoldable pub remove : Option String → ℕ → ℕ → Handler Perfil
unfolding mark present
remove context now id = do
  row ← mark (present context) id (mark_deleted now)
  or_raise row (not_found perfil_nao_encontrado)

unfoldable pub restore : Option String → ℕ → Option String → Handler Perfil
unfolding mark present
restore context id empresa_id = do
  row ← mark (scope context empresa_id) id mark_restored
  or_raise row (not_found perfil_nao_encontrado)
