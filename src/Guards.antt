-- ===== src/Guards.antt =====
-- What stands in front of a controller: the strategy that checks a decoded token, the guard of
-- permissions, and the interceptor that fixes the tenant of the request.
pub mod Strategy
pub mod Permissao
pub mod Empresa
pub mod Pipeline
