-- ===== src/Throttling/Limits.antt =====
-- src/shared/infrastructure/throttling/plano-limits.config.ts
use api_padrao.Prelude.{ℕ, String, Bool, Option, none, some, ◌==◌, string_eq, if◌then◌else◌}

pub record TierLimits : Type 0 where
  pub short : ℕ
  pub medium : ℕ
  pub long : ℕ
  pub sensitive : ℕ

abbrev pub tiers : ℕ → ℕ → ℕ → ℕ → TierLimits
tiers short medium long sensitive = record {
  short = short;
  medium = medium;
  long = long;
  sensitive = sensitive;
}

abbrev pub free_limits : TierLimits
free_limits = tiers 3 20 100 10

abbrev pub pro_limits : TierLimits
pro_limits = tiers 10 50 1000 20

abbrev pub enterprise_limits : TierLimits
enterprise_limits = tiers 30 200 10000 100

abbrev pub test_limit : ℕ
test_limit = 10000

abbrev pub test_limits : TierLimits
test_limits = tiers test_limit test_limit test_limit test_limit

abbrev pub default_plano : String
default_plano = "FREE"

abbrev pub plano_ttl_ms : ℕ
plano_ttl_ms = 60000

-- the own property of `PRODUCTION_LIMITS` with this name
unfoldable pub production_limits : String → Option TierLimits
production_limits plano =
    if plano == "FREE"
    then some free_limits
    else if plano == "PRO"
    then some pro_limits
    else if plano == "ENTERPRISE"
    then some enterprise_limits
    else none

abbrev pub in_test_env : Bool → Option TierLimits → Option TierLimits
in_test_env is_test_env none = none
in_test_env is_test_env (some limits) = some (if is_test_env then test_limits else limits)

-- `PLANO_LIMITS[plano]`
unfoldable pub plano_limits : Bool → String → Option TierLimits
unfolding production_limits
plano_limits is_test_env plano = in_test_env is_test_env (production_limits plano)

-- `planLimits[tier]`, where it is a number
unfoldable pub tier_limit : TierLimits → String → Option ℕ
tier_limit limits tier =
    if tier == "short"
    then some limits.short
    else if tier == "medium"
    then some limits.medium
    else if tier == "long"
    then some limits.long
    else if tier == "sensitive"
    then some limits.sensitive
    else none
