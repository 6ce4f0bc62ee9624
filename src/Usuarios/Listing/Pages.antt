-- ===== src/Usuarios/Listing/Pages.antt =====
-- The pages of a listing, put together.
use api_padrao.Prelude.{
  ℕ, zero, suc, ◌+◌, ◌-◌, ◌*◌, ◌≤◌, ◌<◌, ◌≡◌, refl, sym, ap, ◌∙◌, Bool, true, ◌&&◌, ◌||◌,
  count_where, some, List, [], ◌∷◌, ◌++◌, length, arith, map,
}
use native.Mathlib.Nat.{lt-div-mul-add}
use api_padrao.Prelude.Newest.{
  Ties, newest_first, IsDistinct, IsDescending, newest_first-ties, newest_first-IsDescending,
  count-newest_first,
}
use api_padrao.Database.{UsuarioRow, Database}
use api_padrao.Usuarios.Entity.{Usuario}
use api_padrao.Usuarios.Repository.{is_none, map_to_entity}
use api_padrao.Usuarios.Listing.{PaginationDto, take, drop, created, visible, find_all_rows}

module _ {A : Type 0} where
  take-nil : (n : ℕ) → take {A = A} n [] ≡ []
  unfolding take
  take-nil zero = refl
  take-nil (suc n) = refl

  take-add : (m n : ℕ) (xs : List A) → take (m + n) xs ≡ take m xs ++ take n (drop m xs)
  unfolding take drop
  take-add zero n xs = ap (λ (k : ℕ). take k xs) (omega arith)
  take-add (suc m) n [] = take-nil (suc m + n) ∙ sym (take-nil n)
  take-add (suc m) n (x ∷ xs) =
      ap (λ (k : ℕ). take k (x ∷ xs)) {x = suc m + n} {y = suc (m + n)} (omega arith)
      ∙ ap (λ (t : List A). x ∷ t) (take-add m n xs)

  take-all : (n : ℕ) (xs : List A) → length xs ≤ n → take n xs ≡ xs
  unfolding take
  take-all zero [] h = refl
  take-all (suc n) [] h = refl
  take-all (suc n) (x ∷ xs) h = ap (λ (t : List A). x ∷ t) (take-all n xs (omega arith))
  take-all zero (x ∷ xs) h = absurd (omega arith)

visible-count :
    (p : UsuarioRow → Bool) (include_deleted : Bool) (us : List UsuarioRow)
    → count_where p (visible include_deleted us)
      ≡ count_where (λ u. p u && (include_deleted || is_none u.deleted_at)) us
unfolding visible count_where
visible-count p include_deleted [] = refl
visible-count p include_deleted (u ∷ us) = ground (arith, visible-count p include_deleted us)

count-all : {A : Type 0} (xs : List A) → count_where (λ x. true) xs ≡ length xs
unfolding count_where
count-all [] = refl
count-all (x ∷ xs) = ground (arith, count-all xs)

map-append : {A B : Type 0} (f : A → B) (xs ys : List A) → map f (xs ++ ys) ≡ map f xs ++ map f ys
map-append f [] ys = refl
map-append f (x ∷ xs) ys = ap (λ (t : List _). f x ∷ t) (map-append f xs ys)

abbrev pub asked : ℕ → ℕ → PaginationDto
asked page limit = record { page = some page; limit = some limit }

-- the users of the pages 1 to `k`, where each query orders the rows of one instant as it pleases
unfoldable pub first_pages : (ℕ → Ties UsuarioRow) → ℕ → ℕ → Bool → Database → List Usuario
unfolding find_all_rows
first_pages ties zero limit include_deleted db = []
first_pages ties (suc k) limit include_deleted db =
    first_pages ties k limit include_deleted db
    ++ (find_all_rows (ties (suc k)) (asked (suc k) limit) include_deleted db).data_page

-- the rows that the listing shows, in the order of their instants
abbrev listed : Bool → Database → List UsuarioRow
unfolding newest_first
listed include_deleted db = newest_first created (λ u v. true) (visible include_deleted db.usuarios)

pages-take :
    (ties : ℕ → Ties UsuarioRow) (k limit : ℕ) (include_deleted : Bool) (db : Database)
    → IsDistinct created (visible include_deleted db.usuarios)
    → first_pages ties k limit include_deleted db
      ≡ map map_to_entity (take (k * limit) (listed include_deleted db))
unfolding first_pages take
pages-take ties zero limit include_deleted db distinct =
    ap (λ (n : ℕ). map map_to_entity (take n (listed include_deleted db))) {x = 0} {y = 0 * limit}
      (omega arith)
pages-take ties (suc k) limit include_deleted db distinct =
    let rows = listed include_deleted db in
    let same =
      newest_first-ties created (ties (suc k)) (λ u v. true) (visible include_deleted db.usuarios)
        distinct in
    let before : suc k - 1 ≡ k = omega arith in
    let more : k * limit + limit ≡ suc k * limit = omega arith in
    rw before (
      ap
        (λ (t : List UsuarioRow).
          first_pages ties k limit include_deleted db
          ++ map map_to_entity (take limit (drop (k * limit) t)))
        same
      ∙ ap (λ (t : List Usuario). t ++ map map_to_entity (take limit (drop (k * limit) rows)))
          (pages-take ties k limit include_deleted db distinct)
      ∙ sym (map-append map_to_entity (take (k * limit) rows) (take limit (drop (k * limit) rows)))
      ∙ ap (map map_to_entity) (sym (take-add (k * limit) limit rows))
      ∙ ap (λ (n : ℕ). map map_to_entity (take n rows)) more)

listed-length :
    (include_deleted : Bool) (db : Database)
    → length (listed include_deleted db) ≡ length (visible include_deleted db.usuarios)
unfolding listed
listed-length include_deleted db =
    sym (count-all (listed include_deleted db))
    ∙ count-newest_first created (λ u. true) (λ u v. true) (visible include_deleted db.usuarios)
    ∙ count-all (visible include_deleted db.usuarios)

-- Where no two users that the listing shows were created at one instant, its pages, from the first to
-- the number that every page gives as the last, put one after the other, are these users, the newest
-- first, each as often as it is in the table: none is missing and none comes twice, however each query
-- breaks ties (where the limit is not zero).
pub pages_complete :
    (ties : ℕ → Ties UsuarioRow) (page limit : ℕ) (include_deleted : Bool) (db : Database)
    → 0 < limit
    → IsDistinct created (visible include_deleted db.usuarios)
    → (rows : List UsuarioRow) × (first_pages ties
          (find_all_rows (ties 0) (asked page limit) include_deleted db).total_pages
          limit
          include_deleted
          db
        ≡ map map_to_entity rows)
      × IsDescending created rows
      × ((p : UsuarioRow → Bool)
          → count_where p rows
            ≡ count_where (λ u. p u && (include_deleted || is_none u.deleted_at)) db.usuarios)
unfolding find_all_rows listed
pages_complete ties page limit include_deleted db positive distinct =
    let shown = visible include_deleted db.usuarios in
    let total = length shown in
    let enough = lt-div-mul-add {a = total + (limit - 1)} {b = limit} positive in
    (
      listed include_deleted db,
      pages-take ties _ limit include_deleted db distinct
          ∙ ap (map map_to_entity) (
              take-all _ (listed include_deleted db)
                (rw (listed-length include_deleted db) (omega arith))),
      newest_first-IsDescending created (λ u v. true) shown distinct,
      λ p.
          count-newest_first created p (λ u v. true) shown
          ∙ visible-count p include_deleted db.usuarios,
    )
