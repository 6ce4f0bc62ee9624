-- ===== src/Tests/Companies.antt =====
-- Users who are added to companies.
use api_padrao.Prelude.{find, ℕ, some, List, [], ◌∷◌, ◌≡◌, refl}
use mathlib.Core.Option
use api_padrao.Http.{ok}
use api_padrao.Database.{UsuarioRow}
use api_padrao.World.{Mail}
use api_padrao.Cadastro.{Cadastro}
use api_padrao.Empresas.Service.{AddUsuarioEmpresaDto, is_live_user, add_user}
use api_padrao.Empresas.Table.{perfis_of}
use api_padrao.Empresas.AddUser.Joined.{add_user-inserts, add_user-returns}
use api_padrao.Tests.Data.{ports}
use api_padrao.Tests.Catalog.{cadastro}

abbrev ana_with : List ℕ → AddUsuarioEmpresaDto
ana_with perfis = record { usuario_id = 1; perfil_ids = perfis }

-- a profile of acme is given in beta
abbrev joined : Cadastro
joined = (add_user ports (some "acme") "beta" (ana_with (1 ∷ [])) cadastro).1

add_user-inserts_example : perfis_of 1 "beta" joined.usuario_empresas ≡ some (1 ∷ [])
unfolding api_padrao.Empresas.Lookup.first_missing api_padrao.Perfis.Repository.is_visible
add_user-inserts_example =
    add_user-inserts ports (some "acme") "beta" (ana_with (1 ∷ [])) cadastro 1 "beta" refl

add_user-returns_example :
    (mail : Mail) × (((add_user ports (some "acme") "beta" (ana_with (1 ∷ [])) cadastro).0 ≡ ok tt)
      × (joined.mails ≡ mail ∷ [])
      × (mail.template ≡ "empresas.user_added")
      × (Option.map (λ (u : UsuarioRow). u.email) (find (is_live_user 1) cadastro.usuarios)
          ≡ some mail.to))
unfolding api_padrao.Empresas.Lookup.first_missing api_padrao.Perfis.Repository.is_visible
add_user-returns_example =
    add_user-returns ports (some "acme") "beta" (ana_with (1 ∷ [])) cadastro refl (λ mail. refl)
