-- ===== src/Tests/Listing.antt =====
-- Pages of users.
use api_padrao.Prelude.{
  ℕ, ◌≡◌, refl, arith, false, true, Bool, ◌&&◌, ◌||◌, count_where, List, [], ◌∷◌, map,
}
use api_padrao.Prelude.Newest.{Ties, IsDescending}
use api_padrao.Database.{UsuarioRow, Database}
use api_padrao.Usuarios.Repository.{is_none, map_to_entity}
use api_padrao.Usuarios.Listing.{created, visible, find_all_rows}
use api_padrao.Usuarios.Listing.Pages.{asked, first_pages, pages_complete}
use api_padrao.Tests.Data.{ana_row, empty_db}

abbrev user_at : ℕ → UsuarioRow
user_at n = record ana_row { id = n; created_at = n }

abbrev three_users : Database
three_users = record empty_db { usuarios = user_at 1 ∷ user_at 3 ∷ user_at 2 ∷ [] }

abbrev older_last : Ties UsuarioRow
older_last u v = true

pages_complete_example :
    (rows : List UsuarioRow) × (first_pages
        (λ k. older_last)
        (find_all_rows older_last (asked 1 2) false three_users).total_pages
        2
        false
        three_users
      ≡ map map_to_entity rows)
    × IsDescending created rows
    × ((p : UsuarioRow → Bool)
        → count_where p rows
          ≡ count_where (λ u. p u && (false || is_none u.deleted_at)) three_users.usuarios)
unfolding visible count_where
pages_complete_example =
    pages_complete (λ k. older_last) 1 2 false three_users (omega arith)
      ((refl, (refl, tt)), ((refl, tt), (tt, tt)))
