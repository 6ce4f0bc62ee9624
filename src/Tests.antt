-- ===== src/Tests.antt =====
-- Concrete runs of the modelled services.
mod Data
mod Login
mod Tokens
mod Reset
mod Tracking
mod Users
mod Access
mod Limits
mod Sessions
mod Keys
mod Listing
mod Scope
mod Catalog
mod Companies
mod Mails
mod Queues
mod Failures
mod Entidades
mod Logs
mod Audits
