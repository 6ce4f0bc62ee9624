-- ===== src/Auditoria/Paginas/Complete.antt =====
-- A client that follows the cursor of
-- src/shared/infrastructure/repositories/prisma-audit-log.repository.ts reads the whole log.
use api_padrao.Prelude.{
  ℕ, zero, suc, ◌+◌, ◌<◌, ◌≤◌, min, Bool, true, false, ◌&&◌, Option, none, some, List, [], ◌∷◌,
  ◌++◌, ◌≡◌, refl, sym, ap, subst, ◌∙◌, arith, length, All, select_where, count_where,
  length-select_where, ltb, inl, inr, Bool-cases,
}
use mathlib.Core.Option
use api_padrao.Usuarios.Listing.{take}
use api_padrao.Auditoria.Log.{
  instant_of, AuditLogItem, AuditLogQueryOptions, at_least_one, limit_of, is_before, is_filtered,
  matches, last_created_at, page_of, find_many,
}
use api_padrao.Prelude.Newest.{
  Ties, newest_first, IsDistinct, newest_first-IsDescending, newest_first-ties, newest_first-select,
  select_where-IsDistinct, count-newest_first,
}
use mathlib.Core.Path.{fun_ext}
use api_padrao.Auditoria.Asked.{is_asked, matches-asked}
use api_padrao.Auditoria.Paginas.{
  continued, follow, is_older, IsDescending, Cut, cut, All-middle, selected,
  select_where-IsDescending, select_where-refine, select_where-after, last_created_at-append,
}

take-all : (n : ℕ) (rows : List AuditLogItem) → length rows ≤ n → take n rows ≡ rows
unfolding take
take-all zero [] h = refl
take-all zero (row ∷ rows) h = absurd (omega arith)
take-all (suc n) [] h = refl
take-all (suc n) (row ∷ rows) h = ap (λ rs. row ∷ rs) (take-all n rows (omega arith))

take-take : (n : ℕ) (rows : List AuditLogItem) → take n (take (suc n) rows) ≡ take n rows
unfolding take
take-take zero rows = refl
take-take (suc n) [] = refl
take-take (suc n) (row ∷ rows) = ap (λ rs. row ∷ rs) (take-take n rows)

length-take : (n : ℕ) (rows : List AuditLogItem) → n < length rows → n < length (take (suc n) rows)
unfolding take
length-take n [] h = absurd (omega arith)
length-take zero (row ∷ rows) h = omega arith
length-take (suc n) (row ∷ rows) h = let rest = length-take n rows (omega arith) in omega arith

length-append :
    (before after : List AuditLogItem) → length (before ++ after) ≡ length before + length after
length-append [] after = omega arith
length-append (b ∷ before) after = let rest = length-append before after in omega arith

append_assoc :
    (before : List AuditLogItem) (row : AuditLogItem) (after : List AuditLogItem)
    → (before ++ (row ∷ [])) ++ after ≡ before ++ (row ∷ after)
append_assoc [] row after = refl
append_assoc (b ∷ before) row after = ap (λ rs. b ∷ rs) (append_assoc before row after)

min-suc : (n : ℕ) → (k : ℕ) × (min (at_least_one n) 200 ≡ suc k)
min-suc zero = (0, refl)
min-suc (suc n) = (min n 199, omega arith)

limit_of-suc : (o : AuditLogQueryOptions) → (k : ℕ) × (limit_of o ≡ suc k)
unfolding limit_of
limit_of-suc o = min-suc (Option.get_or o.limit 50)

page_of-last :
    (n : ℕ) (rows : List AuditLogItem)
    → length rows ≤ n
    → page_of n (take (suc n) rows) ≡ record { items = rows; next_cursor = none }
unfolding page_of
page_of-last n rows h =
    let fits : ltb n (length rows) ≡ false = ground arith in
    rw (take-all (suc n) rows (omega arith), fits) refl

page_of-next :
    (n : ℕ) (rows : List AuditLogItem)
    → n < length rows
    → page_of n (take (suc n) rows)
      ≡ record { items = take n rows; next_cursor = last_created_at (take n rows) }
unfolding page_of
page_of-next n rows h =
    let long = length-take n rows h in
    let exceeds : ltb n (length (take (suc n) rows)) ≡ true = ground arith in
    rw (exceeds, take-take n rows) refl

is_before-narrow :
    (cursor : Option ℕ) (c created_at : ℕ)
    → is_before cursor c ≡ true
    → is_before (some c) created_at ≡ (is_before cursor created_at && ltb created_at c)
is_before-narrow none c created_at h = refl
is_before-narrow (some cursor) c created_at h = ground arith

matches-narrow :
    (o : AuditLogQueryOptions) (row r : AuditLogItem)
    → matches o row ≡ true
    → matches (record o { cursor = some row.created_at }) r ≡ (matches o r && is_older row r)
unfolding matches is_filtered
matches-narrow o row r h =
    let narrow = is_before-narrow o.cursor row.created_at r.created_at (ground arith) in
    ground (arith, narrow)

-- the rows of the table that a query asks for
unfoldable pub found : AuditLogQueryOptions → List AuditLogItem → List AuditLogItem
unfolding matches
found o table = select_where (matches o) table

-- the rows in the order of their instants
abbrev in_order : List AuditLogItem → List AuditLogItem
unfolding newest_first
in_order table = newest_first instant_of (λ row r. true) table

module _ (ties : ℕ → Ties AuditLogItem) (table : List AuditLogItem)
    (distinct : IsDistinct instant_of table) where
  found-IsDescending : (o : AuditLogQueryOptions) → IsDescending (found o (in_order table))
  unfolding found in_order
  found-IsDescending o =
      select_where-IsDescending (matches o) (in_order table)
        (newest_first-IsDescending instant_of (λ row r. true) table distinct)

  -- a query orders what it selects, and might as well select from the rows in order
  find_many-found :
      (fuel : ℕ) (o : AuditLogQueryOptions)
      → find_many (ties fuel) o table
        ≡ page_of (limit_of o) (take (suc (limit_of o)) (found o (in_order table)))
  unfolding find_many found in_order
  find_many-found fuel o =
      let selected_first =
        newest_first-ties instant_of (ties fuel) (λ row r. true) (select_where (matches o) table)
          (select_where-IsDistinct instant_of (λ row r. true) (matches o) table distinct)
        ∙ sym (newest_first-select instant_of (λ row r. true) (matches o) table distinct) in
      ap (λ rows. page_of (limit_of o) (take (suc (limit_of o)) rows)) selected_first

  found-rest :
      (o : AuditLogQueryOptions) (before : List AuditLogItem) (row : AuditLogItem)
      (after : List AuditLogItem)
      → found o (in_order table) ≡ before ++ (row ∷ after)
      → found (record o { cursor = some row.created_at }) (in_order table) ≡ after
  unfolding found
  found-rest o before row after whole =
      let next = record o { cursor = some row.created_at } in
      let all = selected (matches o) (in_order table) in
      let holds =
        All-middle (λ r. matches o r ≡ true) before row after
          (subst (λ rs. All (λ r. matches o r ≡ true) rs) whole all) in
      let sorted_here = subst IsDescending whole (found-IsDescending o) in
      select_where-refine (matches o) (is_older row) (matches next) (in_order table)
        (λ r. matches-narrow o row r holds)
      ∙ ap (select_where (is_older row)) whole
      ∙ select_where-after before row after sorted_here

  follow-last :
      (fuel : ℕ) (o : AuditLogQueryOptions)
      → length (found o (in_order table)) ≤ limit_of o
      → follow ties (suc fuel) o table ≡ some (found o (in_order table))
  unfolding follow
  follow-last fuel o h =
      let page = find_many-found fuel o ∙ page_of-last (limit_of o) (found o (in_order table)) h in
      ap (λ p. continued p (λ cursor. follow ties fuel (record o { cursor = some cursor }) table))
        page

  follow-next :
      (fuel : ℕ) (o : AuditLogQueryOptions) (k : ℕ) (c : Cut (suc k) (found o (in_order table)))
      → limit_of o ≡ suc k
      → limit_of o < length (found o (in_order table))
      → follow ties fuel (record o { cursor = some c.row.created_at }) table ≡ some c.after
      → follow ties (suc fuel) o table ≡ some (found o (in_order table))
  unfolding follow
  follow-next fuel o k c limit long rest =
      let rows = found o (in_order table) in
      let page = find_many-found fuel o ∙ page_of-next (limit_of o) rows long in
      let full = ap (λ n. take n rows) limit ∙ c.page in
      let last = ap last_created_at full ∙ last_created_at-append c.before c.row in
      let next = λ (cursor : ℕ). follow ties fuel (record o { cursor = some cursor }) table in
      ap (λ p. continued p next) page
      ∙ ap
          (λ cursor.
            continued (record { items = take (limit_of o) rows; next_cursor = cursor }) next)
          last
      ∙ ap (Option.map (λ later. take (limit_of o) rows ++ later)) rest
      ∙ ap (λ rs. some (rs ++ c.after)) full
      ∙ ap some (append_assoc c.before c.row c.after ∙ sym c.whole)

  follow-found :
      (fuel : ℕ) (o : AuditLogQueryOptions)
      → length (found o (in_order table)) < fuel
      → follow ties fuel o table ≡ some (found o (in_order table))
  follow-found zero o h = absurd (omega arith)
  follow-found (suc fuel) o h =
      elim (Bool-cases (ltb (limit_of o) (length (found o (in_order table))))) [
        | inr short ↦ follow-last fuel o (ground arith)
        | inl long ↦
            let (k, limit) = limit_of-suc o in
            let exceeds : limit_of o < length (found o (in_order table)) = ground arith in
            let c = cut k (found o (in_order table)) (omega arith) in
            let rest = found-rest o c.before c.row c.after c.whole in
            let size = ap length c.whole ∙ length-append c.before (c.row ∷ c.after) in
            let shorter = ap length rest in
            follow-next fuel o k c limit exceeds (
              follow-found fuel (record o { cursor = some c.row.created_at }) (omega arith)
              ∙ ap some rest)
      ]

  found-count :
      (p : AuditLogItem → Bool) (o : AuditLogQueryOptions)
      → count_where p (found o (in_order table)) ≡ count_where p (select_where (matches o) table)
  unfolding found in_order
  found-count p o =
      ap (count_where p) (newest_first-select instant_of (λ row r. true) (matches o) table distinct)
      ∙ count-newest_first instant_of p (λ row r. true) (select_where (matches o) table)

  found-length :
      (o : AuditLogQueryOptions) → length (found o (in_order table)) ≡ count_where (matches o) table
  unfolding found in_order
  found-length o =
      length-select_where (matches o) (in_order table)
      ∙ count-newest_first instant_of (matches o) (λ row r. true) table

  -- In a log whose rows have distinct `createdAt`, in whatever order they are stored, a client that
  -- follows the cursor until there is none comes to an end after at most one page more than there
  -- are rows that the filters and the first cursor ask for, whatever the limit, and has read these
  -- rows, each as often as it is in the log, the newest first.
  pub follow_complete :
      (fuel : ℕ) (o : AuditLogQueryOptions)
      → count_where (is_asked o) table < fuel
      → (rows : List AuditLogItem) × (follow ties fuel o table ≡ some rows)
        × IsDescending rows
        × ((p : AuditLogItem → Bool)
            → count_where p rows ≡ count_where p (select_where (is_asked o) table))
  follow_complete fuel o h =
      let asked = fun_ext (matches-asked o) in
      (
        found o (in_order table),
        follow-found fuel o (
            subst (λ n. n < fuel)
              (sym (found-length o ∙ ap (λ wanted. count_where wanted table) asked)) h),
        found-IsDescending o,
        λ p. found-count p o ∙ ap (λ wanted. count_where p (select_where wanted table)) asked,
      )
