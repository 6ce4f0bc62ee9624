-- ===== src/Permissoes/Repository.antt =====
-- src/permissoes/infrastructure/repositories/prisma-permissao.repository.ts. The extended client
-- hides deleted rows from its reads and turns `delete` into an update (Extension); a write by id
-- reaches a deleted row with either client. No query asks for an order: the rows come as the table
-- has them. `contains` is the database's test of a part of a name, without regard to case.
use api_padrao.Prelude.{
  ℕ, suc, String, Text, Bool, true, false, not, ◌&&◌, ◌||◌, Option, none, some, List, [], ◌∷◌, ◌++◌,
  any, find, select_where, update_where, includes, length, map, ◌==◌, nat_eq, string_eq, text_eq,
  if◌then◌else◌,
}
use mathlib.Core.Option
use api_padrao.Http.{not_found, unexpected, permissao_nao_encontrada, ok, err}
use api_padrao.Exec.{or_raise, ◌>>=◌}
use api_padrao.Usuarios.Repository.{is_none}
use api_padrao.Usuarios.Listing.{take, drop}
use api_padrao.Cadastro.{Permissao, PermissaoRow, Cadastro, Handler}

pub record CreatePermissaoDto : Type 0 where
  pub nome : Text
  pub codigo : String
  pub descricao : String

pub record UpdatePermissaoDto : Type 0 where
  pub nome : Option Text
  pub codigo : Option String
  pub descricao : Option String
  pub ativo : Option Bool

abbrev pub to_domain : PermissaoRow → Permissao
to_domain row = record {
  id = row.id;
  nome = row.nome;
  codigo = row.codigo;
  descricao = row.descricao;
  deleted_at = row.deleted_at;
  ativo = some row.ativo;
}

abbrev pub has_id : ℕ → PermissaoRow → Bool
has_id id row = row.id == id

-- the rows that the client sees: the plain one sees them all
abbrev pub is_visible : Bool → PermissaoRow → Bool
is_visible include_deleted row = include_deleted || is_none row.deleted_at

-- `nome` and `codigo` are unique columns, of deleted rows too
abbrev pub takes_name : Text → String → PermissaoRow → Bool
takes_name nome codigo row = row.nome == nome || row.codigo == codigo

abbrev pub new_row : ℕ → CreatePermissaoDto → PermissaoRow
new_row id dto = record {
  id = id;
  nome = dto.nome;
  codigo = dto.codigo;
  descricao = dto.descricao;
  deleted_at = none;
  ativo = true;
}

-- an insert that fails has used up a value of the sequence
unfoldable pub create : CreatePermissaoDto → Handler Permissao
unfolding any
create dto c =
    let advanced = record c { permissao_seq = suc c.permissao_seq } in
    let row = new_row c.permissao_seq dto in
    if any (takes_name dto.nome dto.codigo) c.permissoes
    then (err (unexpected 2002), advanced)
    else (ok (to_domain row), record advanced { permissoes = c.permissoes ++ row ∷ [] })

unfoldable pub find_all : ℕ → ℕ → Bool → Cadastro → List Permissao × ℕ
unfolding take drop select_where
find_all skip limit include_deleted c =
    let rows = select_where (is_visible include_deleted) c.permissoes in
    (map to_domain (take limit (drop skip rows)), length rows)

unfoldable pub find_one : ℕ → Bool → Cadastro → Option Permissao
unfolding find
find_one id include_deleted c =
    Option.map to_domain (find (λ r. is_visible include_deleted r && has_id id r) c.permissoes)

-- an update by id, where none is P2025: no such row
unfoldable pub write : ℕ → (PermissaoRow → PermissaoRow) → Handler (Option Permissao)
unfolding find update_where
write id change c = (
  ok (Option.map (λ r. to_domain (change r)) (find (has_id id) c.permissoes)),
  record c { permissoes = update_where (has_id id) change c.permissoes },
)

abbrev pub changed_by : UpdatePermissaoDto → PermissaoRow → PermissaoRow
changed_by dto row = record row {
  nome = Option.get_or dto.nome row.nome;
  codigo = Option.get_or dto.codigo row.codigo;
  descricao = Option.get_or dto.descricao row.descricao;
  ativo = Option.get_or dto.ativo row.ativo;
}

-- another row has the name or the code that the update asks for
abbrev pub clashes : ℕ → UpdatePermissaoDto → PermissaoRow → Bool
clashes id dto row =
    not (has_id id row)
    && (elim dto.nome [ none ↦ false | some nome ↦ row.nome == nome ]
        || elim dto.codigo [ none ↦ false | some codigo ↦ row.codigo == codigo ])

unfoldable pub update : ℕ → UpdatePermissaoDto → Handler (Option Permissao)
unfolding find any write
update id dto c =
    if not (any (has_id id) c.permissoes)
    then (ok none, c)
    else if any (clashes id dto) c.permissoes
    then (err (unexpected 2002), c)
    else write id (changed_by dto) c

abbrev pub mark_deleted : ℕ → PermissaoRow → PermissaoRow
mark_deleted now row = record row { deleted_at = some now; ativo = false }

abbrev pub mark_restored : PermissaoRow → PermissaoRow
mark_restored row = record row { deleted_at = none; ativo = true }

unfoldable pub remove : ℕ → ℕ → Handler Permissao
unfolding write
remove now id = do
  row ← write id (mark_deleted now)
  or_raise row (not_found permissao_nao_encontrada)

unfoldable pub restore : ℕ → Handler Permissao
unfolding write
restore id = do row ← write id mark_restored; or_raise row (not_found permissao_nao_encontrada)

unfoldable pub find_by_nome : Text → Bool → Cadastro → Option Permissao
unfolding find
find_by_nome nome include_deleted c =
    Option.map to_domain (find (λ r. is_visible include_deleted r && (r.nome == nome)) c.permissoes)

unfoldable pub find_by_nome_containing :
    (Text → Text → Bool) → Text → ℕ → ℕ → Bool → Cadastro → List Permissao × ℕ
unfolding take drop select_where
find_by_nome_containing contains nome skip limit include_deleted c =
    let rows =
      select_where (λ r. is_visible include_deleted r && contains r.nome nome) c.permissoes in
    (map to_domain (take limit (drop skip rows)), length rows)

-- the selection has no `ativo`
abbrev pub without_ativo : PermissaoRow → Permissao
without_ativo row = record (to_domain row) { ativo = none }

abbrev pub asked_and_visible : List ℕ → PermissaoRow → Bool
asked_and_visible ids row = is_none row.deleted_at && includes row.id ids

-- an empty list of ids selects nothing, as the early return has it
unfoldable pub find_many_by_ids : List ℕ → Cadastro → List Permissao
unfolding select_where includes
find_many_by_ids [] c = []
find_many_by_ids (i ∷ ids) c =
    map without_ativo (select_where (asked_and_visible (i ∷ ids)) c.permissoes)
