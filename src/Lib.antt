-- ===== src/Lib.antt =====
-- A model of the access control of api-padrao, a multi-tenant API in NestJS, with the theorems that
-- hold of it: login and its lockout, access and refresh tokens, password recovery, the changes of a
-- user, the guards in front of the controllers, the keys that make a request idempotent, the limits
-- of a plan, the catalogue of permissions, profiles and companies behind the soft-delete and
-- multi-tenant extension of Prisma, the domain entities, the e-mail sender, the outbox, the audit log,
-- and the filter that answers exceptions.
--
-- The parts and their files:
--   Payload      src/auth/domain/types/jwt-payload.ts: what travels in a token
--   Database     the tables of prisma/schema.prisma as lists of rows
--   Cache        the cache manager: values with an expiry
--   World        what a request reads and writes, and what it is given from outside
--   Exec         handlers with exceptions; `execute` is
--                src/auth/infrastructure/services/prisma-unit-of-work.service.ts
--   Tracker      src/auth/infrastructure/services/cache-login-attempt-tracker.service.ts: `is_locked`,
--                `record_failure`, `clear_failures`
--   Usuarios     src/usuarios: the entity, the reads of the repository, the rules of authorization,
--                and `create`, `find_one_for` and `update` of usuarios.service.ts; its
--                transaction is in Usuarios/Transaction, `find_all` in Usuarios/Listing
--   Auth         src/auth/application/services/auth.service.ts: `login`, `refresh_tokens`
--   Recovery     src/auth/application/services/password-recovery.service.ts: `forgot_password`,
--                `reset_password`
--   Sessions     the handlers in any order (`act_all`), and the table of refresh tokens after them
--   Guards       src/auth/infrastructure/strategies/jwt.strategy.ts (`validate`), the guards of
--                src/auth/application/guards, src/shared/infrastructure/interceptors/empresa.interceptor.ts
--                (`intercept`), and their order in src/app.module.ts (`admit`)
--   Throttling   src/shared/infrastructure/throttling: limits, plans, and the guard
--   Idempotency  src/shared/infrastructure/interceptors/idempotency.interceptor.ts (`intercept`, and
--                `resume`, what follows its read of the cache)
--   Extension    src/prisma/prisma-extension.ts: what a call on the extended client becomes (`extended`)
--   Cadastro     the tables of permissions, profiles, companies and memberships
--   Permissoes   src/permissoes: Repository and Service, each function named as in the source
--   Perfis       src/perfis: Repository (reads), Writes (the writes of the repository), Service
--   Empresas     src/empresas: Repository (companies), Memberships (the table UsuarioEmpresa), Service
--   Email        src/shared/application/services/email-sender.service.ts: Address and Placeholders (its
--                regular expressions and `render`), Sender (`send`)
--   Outbox       src/shared/infrastructure/queues/processors: `process` of outbox.processor.ts,
--                `poll` and `poll_safely` of outbox-poller.service.ts
--   Entities     the classes of domain/entities of src/permissoes, src/perfis, src/empresas and
--                src/usuarios, with their factories and transitions, which no service calls
--   Filter       src/shared/infrastructure/filters/all-exceptions.filter.ts: Problem (the details of an
--                exception), Reply (`catch`)
--   Auditoria    src/shared/infrastructure/repositories/prisma-audit-log.repository.ts: Log (`find_many`)
--                and Paginas (`follow`, the loop of a client); Interceptor (`intercept`) is
--                src/shared/infrastructure/interceptors/audit.interceptor.ts
--   Tests        the runs at concrete inputs
-- A login asks the tracker, then the repository, then stores a refresh token; the refresh, the reset
-- and the PATCH of a user write to the same table of tokens inside a transaction; the guards read what
-- the login has signed.
--
-- State is passed explicitly: a handler maps a `World` (in the catalogue a `Cadastro`) to a result and
-- the next state. What a request draws (time, uuid, random bytes) and which stores raise stands in its
-- `Request`; one request has one instant. Numbers are natural numbers, times are milliseconds, a day
-- has 24 hours. E-mails, names and templates are lists of code points, of which `toLowerCase` changes
-- the letters A to Z. Two recursions have fuel: the digits of a number n have n, which
-- Prelude/Decimal shows to be enough, and the loop of a client that reads the audit log has more than
-- there are rows, which Auditoria/Paginas/Complete shows to be enough. Every other one is on a list or
-- a count.
--
-- Parameters (`Ports`): SHA-256, bcrypt, the JWT signature, the e-mail sender (whether it raises), and
-- the configuration. The engine behind the extended client, the test of a part of a name, the
-- transport of e-mails, the loaded templates, what the queues raise, and the order that the database
-- gives to rows of one instant (`Ties` of Prelude/Newest) are arguments. The verification
-- of a token by passport-jwt is the field `token` of a call.
--
-- Not modelled: the consumers of the queues, the loader of the templates, the service of the tenant
-- context, and the glue around the framework (controllers, validation of DTOs, logging, metrics,
-- configuration). Outages of the database are modelled for the login attempts, the plans and the audit
-- log only.
pub mod Prelude
pub mod Payload
pub mod Http
pub mod Database
pub mod Cache
pub mod World
pub mod Exec
pub mod Extension
pub mod Filter
pub mod Tracker
pub mod Usuarios
pub mod Auditoria
pub mod Auth
pub mod Recovery
pub mod Guards
pub mod Throttling
pub mod Cadastro
pub mod Permissoes
pub mod Perfis
pub mod Entities
pub mod Empresas
pub mod Email
pub mod Outbox
pub mod Tests
pub mod Sessions
pub mod Idempotency
