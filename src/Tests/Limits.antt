-- ===== src/Tests/Limits.antt =====
-- Plans and limits.
use api_padrao.Prelude.{ℕ, ◌≤◌, refl, true, false, none, some, [], ◌∷◌}
use api_padrao.Cache
use api_padrao.Guards.Strategy.{RequestUser}
use api_padrao.Throttling.Limits.{default_plano}
use api_padrao.Throttling.Planos.{EmpresaRow, Tenants, Moment}
use api_padrao.Throttling.Guard.{RequestProps, handle_request}
use api_padrao.Throttling.Bounds.{limit_bounds}
use api_padrao.Tests.Data.{all_up, payload_with}

abbrev empresa : EmpresaRow
empresa = record { id = "e1"; plano = "PRO"; ativo = true; deleted_at = none }

abbrev tenants : Tenants
tenants = record { empresas = empresa ∷ []; planos = Cache.empty }

abbrev at : ℕ → Moment
at now = record { now = now; outage = all_up }

abbrev user : RequestUser
user = record { payload = payload_with "USER"; empresa_id = none }

abbrev props : RequestProps
props = record { name = some "long"; limit = 7; throttler_limit = none }

limit_bounds_example :
    (100 ≤ (handle_request false (at 10) (some user) props tenants).0.limit)
    × ((handle_request false (at 10) (some user) props tenants).0.limit ≤ 10000)
unfolding api_padrao.Throttling.Limits.tier_limit
limit_bounds_example =
    limit_bounds (at 10) (some user) props tenants "long" 100 10000 refl refl refl
