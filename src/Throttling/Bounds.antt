-- ===== src/Throttling/Bounds.antt =====
-- The limits that a request can get.
use api_padrao.Prelude.{
  ℕ, ◌≤◌, String, ◌≡◌, false, Option, some, inl, inr, arith, Bool-cases, ◌==◌, string_eq,
}
use api_padrao.Guards.Strategy.{RequestUser}
use api_padrao.Throttling.Limits.{
  TierLimits, free_limits, pro_limits, enterprise_limits, plano_limits, tier_limit,
}
use api_padrao.Throttling.Planos.{Tenants, Moment}
use api_padrao.Throttling.Guard.{
  RequestProps, extract_empresa_id, resolve_plano, limits_of, handle_request,
}

-- every limit is at least that of `a` and at most that of `b`
pub record Between (a b limits : TierLimits) : Type 0 where
  pub short : (a.short ≤ limits.short) × (limits.short ≤ b.short)
  pub medium : (a.medium ≤ limits.medium) × (limits.medium ≤ b.medium)
  pub long : (a.long ≤ limits.long) × (limits.long ≤ b.long)
  pub sensitive : (a.sensitive ≤ limits.sensitive) × (limits.sensitive ≤ b.sensitive)

limits_of-Between :
    (plano : String)
    → (limits : TierLimits) × (limits_of false plano ≡ some limits)
      × Between free_limits enterprise_limits limits
unfolding plano_limits
limits_of-Between plano = elim (Bool-cases (plano == "FREE")) [
  | inl free ↦ (free_limits, ground (arith, free), ground arith)
  | inr other ↦ elim (Bool-cases (plano == "PRO")) [
    | inl pro ↦ (pro_limits, ground (arith, other, pro), ground arith)
    | inr another ↦ elim (Bool-cases (plano == "ENTERPRISE")) [
      | inl enterprise ↦
          (enterprise_limits, ground (arith, other, another, enterprise), ground arith)
      | inr unknown ↦ (free_limits, ground (arith, other, another, unknown), ground arith)
    ]
  ]
]

tier_limit-Between :
    (a b limits : TierLimits) (tier : String) {low high : ℕ}
    → Between a b limits
    → tier_limit a tier ≡ some low
    → tier_limit b tier ≡ some high
    → (n : ℕ) × (tier_limit limits tier ≡ some n) × (low ≤ n) × (n ≤ high)
unfolding tier_limit
tier_limit-Between a b limits tier h la lb = elim (Bool-cases (tier == "short")) [
  | inl short ↦ (limits.short, ground arith, ground (arith, h.short), ground (arith, h.short))
  | inr a1 ↦ elim (Bool-cases (tier == "medium")) [
    | inl medium ↦ (limits.medium, ground arith, ground (arith, h.medium), ground (arith, h.medium))
    | inr a2 ↦ elim (Bool-cases (tier == "long")) [
      | inl long ↦ (limits.long, ground arith, ground (arith, h.long), ground (arith, h.long))
      | inr a3 ↦ elim (Bool-cases (tier == "sensitive")) [
        | inl sensitive ↦ (
          limits.sensitive,
          ground arith,
          ground (arith, h.sensitive),
          ground (arith, h.sensitive),
        )
        | inr a4 ↦ absurd (ground arith)
      ]
    ]
  ]
]

-- In production the limit of a request is at least that of the plan FREE and at most that of the
-- plan ENTERPRISE for its tier, whatever the user, the cache and the database hold and whether they
-- answer or not.
pub limit_bounds :
    (at : Moment) (user : Option RequestUser) (props : RequestProps) (t : Tenants) (tier : String)
    (low high : ℕ)
    → props.name ≡ some tier
    → tier_limit free_limits tier ≡ some low
    → tier_limit enterprise_limits tier ≡ some high
    → (low ≤ (handle_request false at user props t).0.limit)
      × ((handle_request false at user props t).0.limit ≤ high)
unfolding handle_request
limit_bounds at user props t tier low high name la lb =
    let (limits, some_limits, between) =
      limits_of-Between (resolve_plano false at (extract_empresa_id user) t).0 in
    let (n, is_n, least, most) =
      tier_limit-Between free_limits enterprise_limits limits tier between la lb in
    ground arith
