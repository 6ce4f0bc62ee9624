-- ===== src/Prelude/Newest.antt =====
-- Rows in the order of their instants, the newest first, as the repositories ask the database for them
-- (src/shared/infrastructure/repositories/prisma-audit-log.repository.ts and
-- src/usuarios/infrastructure/repositories/prisma-usuario.repository.ts). Rows of one instant stand in
-- any order; where there are none such, the order is one, and a filter may stand before or after it.
use Prim.Native.Nat.{ℕ}
use mathlib.Core.Path.{◌≡◌, refl, sym, ap, ◌∙◌}
use mathlib.Core.Logic.{inl, inr}
use mathlib.Core.Bool.{Bool, true, false, ◌||◌, ◌&&◌}
use mathlib.Core.List.{List, [], ◌∷◌}
use native.Mathlib.Omega.{arith}
use api_padrao.Prelude.Tests.{ltb, if◌then◌else◌, ◌==◌, nat_eq, Bool-cases}
use api_padrao.Prelude.Lists.{count_where, select_where, All}

-- which of two rows of one instant the database puts first; a query is free in it
abbrev pub Ties : Type 0 → Type 0
Ties A = A → A → Bool

module _ {A : Type 0} (instant : A → ℕ) where
  -- `orderBy: { createdAt: 'desc' }`, where `instant` reads `createdAt`
  abbrev pub comes_first : Ties A → A → A → Bool
  comes_first ties row r = ltb (instant r) (instant row) || (instant r == instant row && ties row r)

  unfoldable pub insert_newest : Ties A → A → List A → List A
  insert_newest ties row [] = row ∷ []
  insert_newest ties row (r ∷ rows) =
      let later = insert_newest ties row rows in
      if comes_first ties row r then row ∷ r ∷ rows else r ∷ later

  unfoldable pub newest_first : Ties A → List A → List A
  unfolding insert_newest
  newest_first ties [] = []
  newest_first ties (row ∷ rows) = insert_newest ties row (newest_first ties rows)

  abbrev pub is_older : A → A → Bool
  is_older row r = ltb (instant r) (instant row)

  -- each row is older than those before it, and no two have one instant
  abbrev pub IsDescending : List A → Type 0
  IsDescending [] = Unit
  IsDescending (row ∷ rows) = All (λ r. is_older row r ≡ true) rows × IsDescending rows

  abbrev pub IsApart : A → A → Type 0
  IsApart row r = (instant r == instant row) ≡ false

  -- no two rows have one instant
  abbrev pub IsDistinct : List A → Type 0
  IsDistinct [] = Unit
  IsDistinct (row ∷ rows) = All (IsApart row) rows × IsDistinct rows

  module _ (P : A → Type 0) (p : A → Bool) where
    pub All-select_where : (rows : List A) → All P rows → All P (select_where p rows)
    unfolding select_where
    All-select_where [] all = tt
    All-select_where (row ∷ rows) (h, all) = elim (Bool-cases (p row)) [
      | inl here ↦ rw here (h, All-select_where rows all)
      | inr other ↦ rw other (All-select_where rows all)
    ]

  module _ (P : A → Type 0) (ties : Ties A) where
    All-insert_newest :
        (row : A) (rows : List A) → P row → All P rows → All P (insert_newest ties row rows)
    unfolding insert_newest
    All-insert_newest row [] h all = (h, tt)
    All-insert_newest row (r ∷ rows) h (here, all) = elim (Bool-cases (comes_first ties row r)) [
      | inl first ↦ rw first (h, (here, all))
      | inr later ↦ rw later (here, All-insert_newest row rows h all)
    ]

    All-newest_first : (rows : List A) → All P rows → All P (newest_first ties rows)
    unfolding newest_first
    All-newest_first [] all = tt
    All-newest_first (row ∷ rows) (h, all) =
        All-insert_newest row (newest_first ties rows) h (All-newest_first rows all)

  module _ (p : A → Bool) (ties : Ties A) where
    count-insert_newest :
        (row : A) (rows : List A)
        → count_where p (insert_newest ties row rows) ≡ count_where p (row ∷ rows)
    unfolding insert_newest count_where
    count-insert_newest row [] = refl
    count-insert_newest row (r ∷ rows) = elim (Bool-cases (comes_first ties row r)) [
      | inl first ↦ rw first refl
      | inr later ↦ rw (later, count-insert_newest row rows) (ground arith)
    ]

    pub count-newest_first :
        (rows : List A) → count_where p (newest_first ties rows) ≡ count_where p rows
    unfolding newest_first count_where
    count-newest_first [] = refl
    count-newest_first (row ∷ rows) =
        count-insert_newest row (newest_first ties rows) ∙ rw (count-newest_first rows) refl

  insert_newest-ties :
      (ties other : Ties A) (row : A) (rows : List A)
      → All (IsApart row) rows
      → insert_newest ties row rows ≡ insert_newest other row rows
  unfolding insert_newest
  insert_newest-ties ties other row [] apart = refl
  insert_newest-ties ties other row (r ∷ rows) (h, apart) =
      rw (h, insert_newest-ties ties other row rows apart) refl

  pub newest_first-ties :
      (ties other : Ties A) (rows : List A)
      → IsDistinct rows
      → newest_first ties rows ≡ newest_first other rows
  unfolding newest_first
  newest_first-ties ties other [] d = refl
  newest_first-ties ties other (row ∷ rows) (apart, d) =
      insert_newest-ties ties other row (newest_first ties rows)
        (All-newest_first (IsApart row) ties rows apart)
      ∙ ap (insert_newest other row) (newest_first-ties ties other rows d)

  older_all :
      (row r : A) (rows : List A)
      → is_older row r ≡ true
      → All (λ s. is_older r s ≡ true) rows
      → All (λ s. is_older row s ≡ true) rows
  older_all row r [] h all = tt
  older_all row r (s ∷ rows) h (here, all) = (ground arith, older_all row r rows h all)

  module _ (ties : Ties A) where
    insert_newest-IsDescending :
        (row : A) (rows : List A)
        → All (IsApart row) rows
        → IsDescending rows
        → IsDescending (insert_newest ties row rows)
    unfolding insert_newest
    insert_newest-IsDescending row [] apart d = (tt, tt)
    insert_newest-IsDescending row (r ∷ rows) (h, apart) (older, d) =
        elim (Bool-cases (comes_first ties row r)) [
          | inl first ↦
              let newer : is_older row r ≡ true = ground arith in
              rw first ((newer, older_all row r rows newer older), (older, d))
          | inr later ↦ rw later (
            All-insert_newest (λ s. is_older r s ≡ true) ties row rows (ground arith) older,
            insert_newest-IsDescending row rows apart d,
          )
        ]

    pub newest_first-IsDescending :
        (rows : List A) → IsDistinct rows → IsDescending (newest_first ties rows)
    unfolding newest_first
    newest_first-IsDescending [] d = tt
    newest_first-IsDescending (row ∷ rows) (apart, d) =
        insert_newest-IsDescending row (newest_first ties rows)
          (All-newest_first (IsApart row) ties rows apart) (newest_first-IsDescending rows d)

    -- a row that is newer than all of them comes first
    insert_newest-newer :
        (row : A) (rows : List A)
        → All (λ s. is_older row s ≡ true) rows
        → insert_newest ties row rows ≡ row ∷ rows
    unfolding insert_newest
    insert_newest-newer row [] all = refl
    insert_newest-newer row (r ∷ rows) (h, all) = rw h refl

    module _ (p : A → Bool) where
      select-insert_out :
          (row : A) (rows : List A)
          → p row ≡ false
          → select_where p (insert_newest ties row rows) ≡ select_where p rows
      unfolding insert_newest select_where
      select-insert_out row [] out = rw out refl
      select-insert_out row (r ∷ rows) out = elim (Bool-cases (comes_first ties row r)) [
        | inl first ↦ rw (first, out) refl
        | inr later ↦ rw (later, select-insert_out row rows out) refl
      ]

      select-insert_in :
          (row : A) (rows : List A)
          → p row ≡ true
          → All (IsApart row) rows
          → IsDescending rows
          → select_where p (insert_newest ties row rows)
            ≡ insert_newest ties row (select_where p rows)
      unfolding insert_newest select_where
      select-insert_in row [] within apart d = rw within refl
      select-insert_in row (r ∷ rows) within (h, apart) (older, d) =
          elim (Bool-cases (comes_first ties row r)) [
            | inl first ↦
                let newer : is_older row r ≡ true = ground arith in
                let all : All (λ s. is_older row s ≡ true) (r ∷ rows) =
                  (newer, older_all row r rows newer older) in
                rw (first, within)
                  (sym (
                    insert_newest-newer row (select_where p (r ∷ rows))
                      (All-select_where (λ s. is_older row s ≡ true) p (r ∷ rows) all)))
            | inr later ↦
                let rest = select-insert_in row rows within apart d in
                elim (Bool-cases (p r)) [
                  | inl here ↦ rw (later, here, insert_newest, later, rest) refl
                  | inr out ↦ rw (later, out) rest
                ]
          ]

      pub newest_first-select :
          (rows : List A)
          → IsDistinct rows
          → select_where p (newest_first ties rows) ≡ newest_first ties (select_where p rows)
      unfolding newest_first select_where
      newest_first-select [] d = refl
      newest_first-select (row ∷ rows) (apart, d) = elim (Bool-cases (p row)) [
        | inr out ↦
            rw out (select-insert_out row (newest_first ties rows) out ∙ newest_first-select rows d)
        | inl within ↦ rw within (
            select-insert_in row (newest_first ties rows) within
              (All-newest_first (IsApart row) ties rows apart) (newest_first-IsDescending rows d)
            ∙ ap (insert_newest ties row) (newest_first-select rows d))
      ]

    pub select_where-IsDistinct :
        (p : A → Bool) (rows : List A) → IsDistinct rows → IsDistinct (select_where p rows)
    unfolding select_where
    select_where-IsDistinct p [] d = tt
    select_where-IsDistinct p (row ∷ rows) (apart, d) = elim (Bool-cases (p row)) [
      | inl here ↦
          rw here (All-select_where (IsApart row) p rows apart, select_where-IsDistinct p rows d)
      | inr out ↦ rw out (select_where-IsDistinct p rows d)
    ]
