-- ===== src/Throttling/Guard.antt =====
-- src/shared/infrastructure/throttling/tenant-throttler.guard.ts
use mathlib.Core.Option
use api_padrao.Prelude.{
  ℕ, String, Text, codes, Bool, Option, none, some, List, [], ◌∷◌, ◌++◌, ◌==◌, string_eq,
  if◌then◌else◌,
}
use api_padrao.Payload.{EmpresaJwt}
use api_padrao.Guards.Strategy.{RequestUser}
use api_padrao.Throttling.Limits.{TierLimits, default_plano, plano_limits, tier_limit}
use api_padrao.Throttling.Planos.{Tenants, Moment, get_plano_by_empresa_id}

-- `a ?? b`
abbrev pub nullish : {A : Type 0} → Option A → Option A → Option A
nullish none b = b
nullish (some a) b = some a

abbrev pub first_id : Option (List EmpresaJwt) → Option String
first_id none = none
first_id (some []) = none
first_id (some (e ∷ es)) = some e.id

-- `req?.user?.empresaId ?? req?.user?.empresas?.[0]?.id`
abbrev pub candidate : Option RequestUser → Option String
candidate none = none
candidate (some user) = nullish user.empresa_id (first_id user.payload.empresas)

abbrev pub non_empty : Option String → Option String
non_empty none = none
non_empty (some s) = if s == "" then none else some s

unfoldable pub extract_empresa_id : Option RequestUser → Option String
extract_empresa_id user = non_empty (candidate user)

abbrev pub tracker_of : Option String → Option String → Text
tracker_of (some empresa_id) ip = codes "tenant:" ++ codes empresa_id
tracker_of none ip = codes "ip:" ++ codes (Option.get_or ip "unknown")

unfoldable pub get_tracker : Option RequestUser → Option String → Text
get_tracker user ip = tracker_of (non_empty (candidate user)) ip

-- What `super.handleRequest` is given: `throttler.limit` is `none` where it is a function.
pub record RequestProps : Type 0 where
  pub name : Option String
  pub limit : ℕ
  pub throttler_limit : Option ℕ

abbrev pub limited : Option ℕ → RequestProps → RequestProps
limited none props = props
limited (some n) props = record props {
  limit = n;
  throttler_limit = Option.map (λ _. n) props.throttler_limit;
}

module _ (is_test_env : Bool) where
  -- a plan that cannot be read is the default one
  unfoldable pub resolve_plano : Moment → Option String → Tenants → String × Tenants
  unfolding get_plano_by_empresa_id
  resolve_plano at none t = (default_plano, t)
  resolve_plano at (some empresa_id) t =
      if empresa_id == ""
      then (default_plano, t)
      else let (plano, t') = get_plano_by_empresa_id is_test_env at empresa_id t in
        (Option.get_or plano default_plano, t')

  -- `PLANO_LIMITS[plano] ?? PLANO_LIMITS[DEFAULT_PLANO]`
  abbrev pub limits_of : String → Option TierLimits
  limits_of plano =
      nullish (plano_limits is_test_env plano) (plano_limits is_test_env default_plano)

  abbrev pub limit_for : Option TierLimits → String → Option ℕ
  limit_for none tier = none
  limit_for (some limits) tier = tier_limit limits tier

  unfoldable pub handle_request :
      Moment → Option RequestUser → RequestProps → Tenants → RequestProps × Tenants
  unfolding resolve_plano plano_limits tier_limit extract_empresa_id
  handle_request at user props t =
      let (plano, t') = resolve_plano at (extract_empresa_id user) t in
      (limited (limit_for (limits_of plano) (Option.get_or props.name "default")) props, t')
