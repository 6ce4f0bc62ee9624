-- ===== src/Tests/Users.antt =====
-- PATCH of a user.
use api_padrao.Prelude.{
  ℕ, String, Text, ◌≡◌, ◌≢◌, refl, true, false, Bool, Option, none, some, List, [], ◌∷◌, find,
  count_where,
}
use api_padrao.Http.{ok}
use api_padrao.Database.{UsuarioRow}
use api_padrao.World.{World}
use api_padrao.Auth.{by_id, is_active_of}
use api_padrao.Usuarios.Repository.{map_to_entity}
use api_padrao.Usuarios.Authorization.{is_admin_in}
use api_padrao.Usuarios.Service.{UpdateUsuarioDto, update}
use api_padrao.Usuarios.Transaction.{delete_row}
use api_padrao.Usuarios.Service.Outcomes.{
  update-ne-ok_of_ativo_and_senha, update-senha, update-soft_delete,
}
use api_padrao.Tests.Data.{ports, request, ana_row, with_refresh, payload_with}

abbrev patch : Option String → Option Bool → UpdateUsuarioDto
patch senha ativo = record { email = none; senha = senha; ativo = ativo }

update-ne-ok_of_ativo_and_senha_example :
    update ports
      (request 10 "")
      1
      (patch (some "nova") (some false))
      (payload_with "ADMIN")
      (some "e1")
      (with_refresh none)
    ≢ (ok (map_to_entity ana_row), with_refresh none)
update-ne-ok_of_ativo_and_senha_example =
    update-ne-ok_of_ativo_and_senha ports (request 10 "") 1 (patch (some "nova") (some false))
      (payload_with "ADMIN") (some "e1") (with_refresh none) false "nova" refl refl
      (map_to_entity ana_row) (with_refresh none)

abbrev renewed : World
renewed =
    (update ports (request 10 "") 1 (patch (some "nova") none) (payload_with "USER") none
      (with_refresh none)).1

abbrev renewed_row : UsuarioRow
renewed_row = record ana_row { senha = some "#nova"; updated_at = 10 }

update-senha_example :
    (count_where (is_active_of 1) renewed.db.refresh_tokens ≡ 0)
    × (row : UsuarioRow) × (find (by_id 1) renewed.db.usuarios ≡ some row)
    × (row.senha ≡ some "#nova")
unfolding update api_padrao.Usuarios.Repository.find_one find
    api_padrao.Usuarios.Authorization.can_update_usuario count_where api_padrao.Prelude.update_where
update-senha_example =
    update-senha ports (request 10 "") 1 (patch (some "nova") none) (payload_with "USER") none
      (with_refresh none) renewed (map_to_entity renewed_row) "nova" refl refl

abbrev deleted : World
deleted =
    (update ports (request 10 "") 1 (patch none (some false)) (payload_with "ADMIN") (some "e1")
      (with_refresh none)).1

update-soft_delete_example :
    (is_admin_in (some "e1") (payload_with "ADMIN") ≡ true)
    × (row : UsuarioRow) × (find (by_id 1) (with_refresh none).db.usuarios ≡ some row)
    × (row.deleted_at ≡ none)
    × (find (by_id 1) deleted.db.usuarios ≡ some (delete_row 10 row))
    × (map_to_entity (delete_row 10 ana_row) ≡ map_to_entity (delete_row 10 row))
unfolding update api_padrao.Usuarios.Repository.find_one find
    api_padrao.Usuarios.Authorization.can_update_usuario is_admin_in api_padrao.Prelude.any
    count_where api_padrao.Prelude.update_where
update-soft_delete_example =
    update-soft_delete ports (request 10 "") 1 (patch none (some false)) (payload_with "ADMIN")
      (some "e1") (with_refresh none) deleted (map_to_entity (delete_row 10 ana_row)) refl refl
