-- ===== src/Filter.antt =====
-- src/shared/infrastructure/filters/all-exceptions.filter.ts: the answer to an exception that a
-- handler, a guard or an interceptor raises. What is only written to stderr in tests is left out.
pub mod Problem
pub mod Reply
pub mod Answers
pub mod Opaque
