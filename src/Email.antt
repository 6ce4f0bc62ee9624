-- ===== src/Email.antt =====
-- The sender of e-mails: src/shared/application/services/email-sender.service.ts with the templates of
-- src/shared/infrastructure/services/template-loader.service.ts.
pub mod Address
pub mod Placeholders
pub mod Sender
