-- ===== src/Usuarios/Listing.antt =====
-- `findAll` of src/usuarios/application/services/usuarios.service.ts and of
-- src/usuarios/infrastructure/repositories/prisma-usuario.repository.ts: a page of the users.
pub mod Pages
use api_padrao.Prelude.{
  ℕ, zero, suc, ◌+◌, ◌-◌, ◌*◌, String, Bool, true, false, not, ◌||◌, Option, none, some, List, [],
  ◌∷◌, length, if◌then◌else◌, map,
}
use Prim.Native.Nat.{◌/◌}
use mathlib.Core.Option
use api_padrao.Prelude.Newest.{Ties, newest_first}
use api_padrao.Payload.{JwtPayload}
use api_padrao.Payload.Authority.{is_admin}
use api_padrao.Http.{forbidden, sem_permissao_de_listar, ok, err}
use api_padrao.Database.{UsuarioRow, Database}
use api_padrao.World.{World}
use api_padrao.Exec.{Exec, gets, raise_if, ◌>>=◌, ◌>>◌}
use api_padrao.Usuarios.Entity.{Usuario}
use api_padrao.Usuarios.Repository.{is_none, map_to_entity}
use api_padrao.Usuarios.Authorization.{is_admin_in}

pub record PaginationDto : Type 0 where
  pub page : Option ℕ
  pub limit : Option ℕ

pub record PaginatedUsuarios : Type 0 where
  pub data_page : List Usuario
  pub total : ℕ
  pub page : ℕ
  pub limit : ℕ
  pub total_pages : ℕ

module _ {A : Type 0} where
  unfoldable pub take : ℕ → List A → List A
  take zero xs = []
  take (suc n) [] = []
  take (suc n) (x ∷ xs) = x ∷ take n xs

  unfoldable pub drop : ℕ → List A → List A
  drop zero xs = xs
  drop (suc n) [] = []
  drop (suc n) (x ∷ xs) = drop n xs

abbrev pub created : UsuarioRow → ℕ
created u = u.created_at

-- the rows of the client: the extended one filters the deleted rows out
unfoldable pub visible : Bool → List UsuarioRow → List UsuarioRow
visible include_deleted [] = []
visible include_deleted (u ∷ us) =
    let rest = visible include_deleted us in
    if include_deleted || is_none u.deleted_at then u ∷ rest else rest

abbrev pub page_of : {A : Type 0} → ℕ → ℕ → List A → List A
page_of page limit rows = take limit (drop ((page - 1) * limit) rows)

-- `Math.ceil(total / limit)`, where the limit is not zero
abbrev pub pages_for : ℕ → ℕ → ℕ
pages_for total limit = (total + (limit - 1)) / limit

-- `orderBy: { createdAt: 'desc' }`; `ties` is the order that the database gives to rows of one instant
unfoldable pub find_all_rows : Ties UsuarioRow → PaginationDto → Bool → Database → PaginatedUsuarios
unfolding take drop newest_first visible
find_all_rows ties dto include_deleted db =
    let page = Option.get_or dto.page 1 in
    let limit = Option.get_or dto.limit 10 in
    let rows = visible include_deleted db.usuarios in
    record {
      data_page = map map_to_entity (page_of page limit (newest_first created ties rows));
      total = length rows;
      page = page;
      limit = limit;
      total_pages = pages_for (length rows) limit;
    }

unfoldable pub find_all :
    Ties UsuarioRow → PaginationDto → JwtPayload → Bool → Option String → Exec PaginatedUsuarios
unfolding find_all_rows
find_all ties dto logado include_deleted empresa_id = do
  raise_if (not (is_admin logado || is_admin_in empresa_id logado))
      (forbidden sem_permissao_de_listar)
  gets (λ w. find_all_rows ties dto include_deleted w.db)
