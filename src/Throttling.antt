-- ===== src/Throttling.antt =====
-- src/shared/infrastructure/throttling: the plan of a tenant, and the limits and the key that the
-- guard hands to the throttler library.
pub mod Limits
pub mod Planos
pub mod Guard
pub mod Bounds
pub mod Downgrade
