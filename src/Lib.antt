-- ===== src/Lib.antt =====
-- The file storage of the backend with the transactions under it, the sessions of a user, the invitations
-- of a tenant, the guards of a request, and the saga: src/core/file-storage, src/core/authentication,
-- src/core/tenant, src/shared/auth, src/shared/authorization, src/shared/saga, src/prisma.
--
-- File storage keeps one row per file (table files: its status, its versions with their scans, a
-- lock counter), one row per tenant with the bytes it may use and uses (file_quotas), and one object
-- per version in an object store. A request uploads, replaces, deletes, renames or moves a file; jobs
-- scan it, scan it again, purge the objects of deleted files, and reconcile the store with the rows.
-- A login opens a session of an account, with a short access token and a refresh token that every
-- refresh replaces; a guard asks at each request whether the session is valid. Password resets and
-- e-mail verifications are tokens, of which the tables keep the hash.
-- An invitation lets its recipient join a tenant once, before a date. A saga runs steps that share a
-- context and compensates those that are done when a later one throws.
--
-- Prelude: shared types. Text is a list of code units, Result the outcome of code that may throw,
--   Exec a computation on a world that may throw, Keeps a predicate that a computation preserves, Yields
--   one with what holds of the value, Leads what holds before and after one, Rows the tables.
-- FileStorage/Domain: the entities and value objects (domain/entities, domain/value-objects). A
--   method that changes an entity takes the time it reads and gives the changed entity, or throws.
--   Domain/File/Invariant, Diagram, Lifecycle and Size are about the entity File.
-- FileStorage/ObjectStore: the port of the object store as a record of operations and laws;
--   ObjectStore/Memory is a store that meets them.
-- FileStorage/World: the state of the use cases (committed tables, the view of an open transaction,
--   the object store, the queue) and the services, whose answers and failures are the parameter Env.
-- FileStorage/Mapper and Repository: infrastructure/mappers and infrastructure/repositories. A table
--   holds entities in place of rows; Mapper/Rows has the rows that FileMapper writes and reads.
-- FileStorage/Validation and Compensation: application/validation and application/compensation.
-- FileStorage/UseCases: application/use-cases and application/use-cases-internal, one function per
--   method `execute` and per private method.
-- FileStorage/Jobs: application/jobs. Jobs/Objects, Jobs/Purge, Jobs/Purged and
--   Jobs/Scanning are about what they do.
-- FileStorage/Accounting: the bytes of a tenant against its quota, use case by use case.
-- FileStorage/UseCases/Rollback and Download: an upload or a replacement that throws, and which file a
--   download URL is given out for.
-- FileStorage/Samples: a concrete world, and the theorems at inputs that meet their hypotheses.
-- Authentication/Domain: the entities and value objects (domain/entities, domain/value-objects).
-- Authentication/World and Repository: the tables, the open transaction and the other modules' services
--   (Env), infrastructure/mappers and infrastructure/repositories.
-- Authentication/UseCases: application/use-cases, one function per method `execute`.
-- Authentication/Sessions: predicates on the rows of the sessions that every request keeps
--   (Operations, Steps), and what follows: Lifetime, Revocation, Rotation, Race.
-- Authentication/Resets: password resets, what they write and when; Resets/Once is about one that returns.
-- Guards: the guards of every request and the CSRF token (shared/auth, shared/authorization,
--   app.module.ts): Csrf, Request (what they read and write), Chain (the guards), Passed and Allowed
--   (a request let through), Denied (the audit of one that is not).
-- Tenant/Values, Invitation, Invitations: the value objects (domain/value-objects), the entity
--   (domain/entities/invitation) with its Lifecycle, and the use cases on the table of invitations
--   (application/use-cases, application/use-cases-ohs), whose Race interleaves two of them.
-- Shared/Saga: SagaOrchestrator (shared/saga/orchestrator), on a state that stands for the context
--   and all that the steps act on; Saga/Rollback relates its loop to nested handlers.
--
-- No definition needs fuel: the loops run over lists. Numbers are natural; the program's sizes and
-- times are safe integers. In file storage requests run one after the other: what interleaves with
-- a request is only the failure of a service at any call. Of the requests on sessions, Race runs others
-- between the two halves of a refresh.
--
-- A call of a service that fails has no effect: an upload to the disk that fails half way, and leaves a
-- part of the object, is outside the model. Of the recorder of the audit the model keeps the calls: what
-- is counted is those, and the recorder may drop an event whose action or resource it does not know.
--
-- Not modelled: the controllers, the schemas and the modules of the framework, the adapters of the
-- object store, the antivirus and the queue (parameters of the world), the texts of the messages, the
-- logs, registration and the listing of sessions, and the other parts of the backend.
pub mod Authentication
pub mod FileStorage
pub mod Guards
pub mod Prelude
pub mod Shared
pub mod Tenant
