-- ===== src/Auditoria/Log.antt =====
-- src/shared/infrastructure/repositories/prisma-audit-log.repository.ts. The table is a list of rows
-- in no order.
use api_padrao.Prelude.{
  ℕ, zero, suc, min, String, Bool, true, false, ◌&&◌, Option, none, some, List, [], ◌∷◌, length,
  select_where, ltb, ◌==◌, nat_eq, string_eq, if◌then◌else◌,
}
use mathlib.Core.Option
use api_padrao.Prelude.Newest.{Ties, newest_first}
use api_padrao.Usuarios.Listing.{take}

pub record AuditLogItem : Type 0 where
  pub id : String
  pub usuario_id : Option ℕ
  pub acao : String
  pub recurso : String
  pub recurso_id : Option String
  pub detalhes : Option String
  pub ip : Option String
  pub user_agent : Option String
  pub created_at : ℕ

-- `cursor` is the instant that the text stands for
pub record AuditLogQueryOptions : Type 0 where
  pub cursor : Option ℕ
  pub limit : Option ℕ
  pub acao : Option String
  pub usuario_id : Option ℕ
  pub recurso : Option String

pub record AuditLogCursorPage : Type 0 where
  pub items : List AuditLogItem
  pub next_cursor : Option ℕ

abbrev pub default_limit : ℕ
default_limit = 50

abbrev pub max_limit : ℕ
max_limit = 200

abbrev pub at_least_one : ℕ → ℕ
at_least_one zero = 1
at_least_one (suc n) = suc n

unfoldable pub limit_of : AuditLogQueryOptions → ℕ
limit_of o = min (at_least_one (Option.get_or o.limit default_limit)) max_limit

abbrev pub is_wanted : Option String → String → Bool
is_wanted none value = true
is_wanted (some wanted) value = value == wanted

abbrev pub is_by : Option ℕ → Option ℕ → Bool
is_by none usuario_id = true
is_by (some wanted) none = false
is_by (some wanted) (some usuario_id) = usuario_id == wanted

-- `createdAt: { lt: cursor }`
abbrev pub is_before : Option ℕ → ℕ → Bool
is_before none created_at = true
is_before (some cursor) created_at = ltb created_at cursor

unfoldable pub is_filtered : AuditLogQueryOptions → AuditLogItem → Bool
is_filtered o row =
    is_by o.usuario_id row.usuario_id
    && is_wanted o.acao row.acao
    && is_wanted o.recurso row.recurso

unfoldable pub matches : AuditLogQueryOptions → AuditLogItem → Bool
unfolding is_filtered
matches o row = is_filtered o row && is_before o.cursor row.created_at

abbrev pub instant_of : AuditLogItem → ℕ
instant_of row = row.created_at

unfoldable pub last_created_at : List AuditLogItem → Option ℕ
last_created_at [] = none
last_created_at (row ∷ []) = some row.created_at
last_created_at (row ∷ r ∷ rows) = last_created_at (r ∷ rows)

-- one row more than the page tells whether there is a next one
unfoldable pub page_of : ℕ → List AuditLogItem → AuditLogCursorPage
unfolding take last_created_at
page_of limit rows =
    if ltb limit (length rows)
    then record { items = take limit rows; next_cursor = last_created_at (take limit rows) }
    else record { items = rows; next_cursor = none }

unfoldable pub find_many :
    Ties AuditLogItem → AuditLogQueryOptions → List AuditLogItem → AuditLogCursorPage
unfolding limit_of matches newest_first page_of
find_many ties o table =
    page_of (limit_of o)
      (take (suc (limit_of o)) (newest_first instant_of ties (select_where (matches o) table)))
