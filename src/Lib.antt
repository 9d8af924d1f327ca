-- ===== src/Lib.antt =====
-- Dispatch API: a NestJS service for orders, items, payments, users and notifications over
-- PostgreSQL (TypeORM), Redis (cache, locks, BullMQ queues) and Stripe.
--
-- How the parts interact. A request reaches a service operation, which runs under a Redis lock and in a
-- database transaction (DbGuardService). What must follow from a change, such as a notification,
-- the processing of an order or a customer at the gateway, is written as a row of the outbox in that transaction; a
-- periodic cycle moves those rows to the job queues, whose workers run a strategy for each job under a
-- lock and a marker in the cache. Payments and refunds are requests to the gateway.
--
-- Which file models which part:
--   Enums, Entities, Dtos      src/modules/*/enums, entities, dto; src/shared/payloads, src/shared/enums
--   World                      the state of the process and its stores, the errors, and operations as
--                              functions on the state that return or throw (World.Monad); lock and
--                              cache keys (src/shared/constants/lock.key.ts, src/shared/modules/cache/constants)
--   Guard                      src/shared/modules/db-guard/db-guard.service.ts (lock, transaction, lockAndTransaction)
--   Cache                      src/shared/modules/cache (CacheService, IdempotencyService.getOrExecute)
--   Pagination                 the `filter` of the repositories (item, order and user.repository.ts); Cursor for their
--                              `encodeCursor` and src/shared/providers/pipes/cursor-params.pipe.ts
--   Jobs                       src/shared/providers/processors/base.processor.ts (executeJob)
--   Outbox                     src/shared/modules/outbox (add, OutboxDispatcher.partition, the cron processor)
--   Items                      src/modules/items (items.service.ts: Service for the catalogue, Listing for its listings,
--                              Stock for the stock)
--   Payments                   src/modules/payments (Stripe and Gateway for stripe.adapter.ts and the webhook, Service and
--                              Listing for payments.service.ts, Jobs for the strategies)
--   Orders                     src/modules/orders: Policy and Currency for helpers, Store for the reads and writes
--                              of the repository, Service and Create for orders.service.ts, Listing for its reading operations and the
--                              filter of order.repository.ts, Requests for the routes
--                              that change an order, Jobs for the strategies of the queue
--   Users                      src/modules/users/users.service.ts: removal and role checks here, Accounts for creation and update,
--                              Profiles for its reading operations and the filter of user.repository.ts; RolesGuard of src/modules/auth
--   Auth                       src/modules/auth/auth.service.ts and the check of the strategies
--   Notifications              src/modules/notifications: notifications.service.ts, Inbox for its reading operations and texts,
--                              Templates for the keys of the texts
--   Effects                    src/modules/effects: the job that notifies a user
--   Api                        the controllers, one definition each: Users, Items, Orders, Session for src/modules/auth and
--                              src/modules/notifications; Routes puts the guards before them
--   Workers                    the processors and handler factories of src/modules/orders, payments and users; the modules
--                              below follow a row of the outbox to the end of its job
--   Keys                       the texts of the keys of locks and cache entries (src/shared/constants/lock.key.ts,
--                              src/shared/modules/cache/utils/cache-key.factory.ts), which stand elsewhere as records
--   Repository                 src/shared/providers/repositories/base.repository.ts, for any entity
--   Seed                       src/shared/providers/services/seed-data.service.ts
--   Web                        src/middleware, genReqId of src/config/logger.config.ts, src/shared/filters/exception.filter.ts;
--                              Ascii for what `toString('ascii')` makes of bytes
--   Tests                      a small shop, and one run for each result
-- The modules below a part hold what is proved of it, named for that.
--
-- How the code is modelled. The database is a record of tables, each a list of rows; a row is found
-- by the first match of its id, which is the primary key, and a soft-deleted row is not found. The open transaction is the function
-- that its writes are; a nested transaction is one of its own that commits by itself and leaves the
-- outer one open, as `dataSource.transaction` does. Ids, times, gateway ids and prices are natural numbers, an item's
-- stock and the limit of a cursor are integers; a time counts microseconds, as the columns do, and a time to live milliseconds; `updatedAt` is left out, since nothing reads it. A generated id is the next number never
-- used. An operation that throws gives back the error and the state that it has reached.
--
-- What is a parameter (World.Env): the answers of Stripe, which may depend on all earlier requests; Intl.NumberFormat; ILIKE;
-- JSON.stringify of a query; the text of a cursor (base64 and JSON of a time in milliseconds) and reading it back; I18nService.translate; the configured time to live; whether a queue takes a bulk of jobs;
-- argon2 and JwtService.sign; a number for each text that stands in a key. Calls of the database
-- and of Redis are taken to succeed where no error is modelled, and a lock that is held makes the call throw
-- at once, where Redlock would first retry; the expiry of a lock is not modelled.
--
-- The unique index on the emails of users is checked at each write of a user; the other constraints that are
-- modelled are the primary keys where the development data is inserted, the foreign keys of notifications and
-- customers, the unique indexes of customers, payments and refunds and the required columns of an address.
--
-- A page is fetched as TypeORM and PostgreSQL document it: `take(0)` writes no LIMIT, and a LIMIT below 0 is an error of
-- the database (Pagination.fetched, is_refused).
--
-- Loops run over lists and are structural recursion; no fuel is used.
--
-- Not modelled: a limit of a cursor that is a fraction or no number, the signature and expiry of tokens, the checks of ids and bodies by pipes, the limits of
-- requests, the descriptions for Swagger, logging and the set-up of the framework.
pub mod Prelude
pub mod Enums
pub mod Entities
pub mod Dtos
pub mod World
pub mod Guard
pub mod Cache
pub mod Pagination
pub mod Jobs
pub mod Keys
pub mod Repository
pub mod Outbox
pub mod Seed
pub mod Items
pub mod Payments
pub mod Orders
pub mod Users
pub mod Web
pub mod Workers
pub mod Auth
pub mod Tests
pub mod Notifications
pub mod Effects
pub mod Api
