-- ===== src/Cache.antt =====
-- The cache manager over Redis: `get`, `set` with a time to live, `del`. The keys of each prefix
-- (`auth:login:attempts:`, `auth:user-validity:`, `auth:user-profiles:`) are a map of their own,
-- since no key has two of them. An entry is read while the time is before its expiry.
use api_padrao.Prelude.{ℕ, Option, none, some, ltb, StrictEq, ◌==◌, if◌then◌else◌}

pub record Stored (V : Type 0) : Type 0 where
  pub value : V
  pub expires : ℕ

abbrev pub CacheMap : Type 0 → Type 0 → Type 0
CacheMap K V = K → Option (Stored V)

abbrev pub empty : {K V : Type 0} → CacheMap K V
empty k = none

module _ {V : Type 0} where
  abbrev pub live : ℕ → Option (Stored V) → Option V
  live now none = none
  live now (some s) = if ltb now s.expires then some s.value else none

module _ {K V : Type 0} where
  abbrev pub get : ℕ → K → CacheMap K V → Option V
  get now k m = live now (m k)

module _ {K V : Type 0} ⦃same : StrictEq K⦄ where
  abbrev pub set : K → V → ℕ → CacheMap K V → CacheMap K V
  set k v expires m j = if k == j then some (record { value = v; expires = expires }) else m j

  abbrev pub del : K → CacheMap K V → CacheMap K V
  del k m j = if k == j then none else m j
