-- ===== src/Auditoria/Paginas.antt =====
-- The pages of src/shared/infrastructure/repositories/prisma-audit-log.repository.ts, for a client that
-- follows `nextCursor`.
pub mod Complete
use api_padrao.Prelude.{
  ℕ, zero, suc, ◌+◌, ◌<◌, ◌≤◌, Bool, true, false, ◌&&◌, Option, none, some, List, [], ◌∷◌, ◌++◌,
  ◌≡◌, refl, sym, ap, subst, ◌∙◌, arith, length, All, select_where, ltb, leb, inl, inr, Bool-cases,
  if◌then◌else◌,
}
use mathlib.Core.Option
use api_padrao.Usuarios.Listing.{take}
use api_padrao.Prelude.Newest.{Ties, All-select_where}
use api_padrao.Prelude.Newest
use api_padrao.Auditoria.Log.{
  instant_of, AuditLogItem, AuditLogQueryOptions, AuditLogCursorPage, at_least_one, limit_of,
  is_before, is_filtered, matches, last_created_at, page_of, find_many,
}

-- a page, and what follows it
abbrev pub continued :
    AuditLogCursorPage → (ℕ → Option (List AuditLogItem)) → Option (List AuditLogItem)
continued page rest = elim page.next_cursor [
  | none ↦ some page.items
  | some cursor ↦ Option.map (λ later. page.items ++ later) (rest cursor)
]

-- the client's loop, on fuel: it asks with the cursor of the page before until there is none; each
-- query orders the rows of one instant as it pleases
unfoldable pub follow :
    (ℕ → Ties AuditLogItem)
    → ℕ
    → AuditLogQueryOptions
    → List AuditLogItem
    → Option (List AuditLogItem)
unfolding find_many
follow ties zero o table = none
follow ties (suc fuel) o table =
    continued (find_many (ties fuel) o table)
      λ cursor. follow ties fuel (record o { cursor = some cursor }) table

abbrev pub is_older : AuditLogItem → AuditLogItem → Bool
is_older = Newest.is_older instant_of

abbrev pub IsDescending : List AuditLogItem → Type 0
IsDescending = Newest.IsDescending instant_of

module _ (P : AuditLogItem → Type 0) where
  pub All-middle :
      (before : List AuditLogItem) (row : AuditLogItem) (after : List AuditLogItem)
      → All P (before ++ (row ∷ after))
      → P row
  All-middle [] row after (h, all) = h
  All-middle (b ∷ before) row after (h, all) = All-middle before row after all

module _ (p : AuditLogItem → Bool) where
  select_where-all :
      (rows : List AuditLogItem) → All (λ r. p r ≡ true) rows → select_where p rows ≡ rows
  unfolding select_where
  select_where-all [] all = refl
  select_where-all (row ∷ rows) (h, all) = rw (h, select_where-all rows all) refl

  pub selected : (rows : List AuditLogItem) → All (λ r. p r ≡ true) (select_where p rows)
  unfolding select_where
  selected [] = tt
  selected (row ∷ rows) = elim (Bool-cases (p row)) [
    | inl here ↦ rw here (here, selected rows)
    | inr other ↦ rw other (selected rows)
  ]

  pub select_where-IsDescending :
      (rows : List AuditLogItem) → IsDescending rows → IsDescending (select_where p rows)
  unfolding select_where
  select_where-IsDescending [] d = tt
  select_where-IsDescending (row ∷ rows) (older, d) = elim (Bool-cases (p row)) [
    | inl here ↦ rw here (
      All-select_where instant_of (λ r. is_older row r ≡ true) p rows older,
      select_where-IsDescending rows d,
    )
    | inr other ↦ rw other (select_where-IsDescending rows d)
  ]

  pub select_where-refine :
      (q both : AuditLogItem → Bool) (rows : List AuditLogItem)
      → ((r : AuditLogItem) → both r ≡ (p r && q r))
      → select_where both rows ≡ select_where q (select_where p rows)
  unfolding select_where
  select_where-refine q both [] same = refl
  select_where-refine q both (row ∷ rows) same = elim (Bool-cases (p row)) [
    | inl here ↦ rw (same row, here, select_where-refine q both rows same) refl
    | inr other ↦ rw (same row, other) (select_where-refine q both rows same)
  ]

-- the rows that are older than one of the table are those after it
pub select_where-after :
    (before : List AuditLogItem) (row : AuditLogItem) (after : List AuditLogItem)
    → IsDescending (before ++ (row ∷ after))
    → select_where (is_older row) (before ++ (row ∷ after)) ≡ after
unfolding select_where
select_where-after [] row after (older, d) =
    let itself : is_older row row ≡ false = ground arith in
    rw itself (select_where-all (is_older row) after older)
select_where-after (b ∷ before) row after (older, d) =
    let is_after = All-middle (λ r. is_older b r ≡ true) before row after older in
    let newer : is_older row b ≡ false = ground arith in
    rw newer (select_where-after before row after d)

-- where a full page ends
pub record Cut (limit : ℕ) (rows : List AuditLogItem) : Type 0 where
  pub before : List AuditLogItem
  pub row : AuditLogItem
  pub after : List AuditLogItem
  pub whole : rows ≡ before ++ (row ∷ after)
  pub page : take limit rows ≡ before ++ (row ∷ [])

pub cut : (limit : ℕ) (rows : List AuditLogItem) → suc limit < length rows → Cut (suc limit) rows
unfolding take
cut limit [] h = absurd (omega arith)
cut zero (row ∷ rows) h = record { before = []; row = row; after = rows; whole = refl; page = refl }
cut (suc limit) (row ∷ rows) h =
    let rest = cut limit rows (omega arith) in
    record {
      before = row ∷ rest.before;
      row = rest.row;
      after = rest.after;
      whole = ap (λ rs. row ∷ rs) rest.whole;
      page = ap (λ rs. row ∷ rs) rest.page;
    }

pub last_created_at-append :
    (before : List AuditLogItem) (row : AuditLogItem)
    → last_created_at (before ++ (row ∷ [])) ≡ some row.created_at
unfolding last_created_at
last_created_at-append [] row = refl
last_created_at-append (b ∷ []) row = refl
last_created_at-append (b ∷ c ∷ before) row = last_created_at-append (c ∷ before) row
