-- ===== src/Lib.antt =====
-- The Hotspot payment gateway: a FastAPI backend, of which the authentication service is what runs
-- today. It keeps users, their provider links, their sessions (refresh tokens) and the single-use
-- tokens that it mails, in four tables; it signs access tokens; and it answers requests over HTTP. The
-- tables of tenants, plans, routers, payments and hotspot sessions are there for later.
--
-- How the parts interact. A request is validated (src/auth/schemas/auth.py), passes the rate limit of
-- its path (src/core/rate_limit.py), and runs a handler (src/auth/router.py) that calls the service
-- (src/auth/service.py) with a database session of its own (src/database.py). Exceptions of the
-- service become HTTP errors in the handler or in the application (src/main.py). Mails are sent after
-- the response. The tables are declared by model classes (src/*/models) and made by four migrations
-- (alembic/versions) that Alembic runs in one transaction (alembic/env.py).
--
-- Which file models which part:
--   Base, Base/*            lists, tests, updates of rows, Python's strip and partition
--   Runtime                 `Env`, the outside world: clock, random source, bcrypt, SHA-256, PyJWT, UUIDs,
--                           the row that a query gives back, slowapi's verdict, Authlib, Unicode tables
--   Tenant, Core/*          src/tenant/constants.py, src/core/security.py, src/core/rate_limit.py
--   Core/Config             src/core/config.py: how _split_cors reads the origins; a variable of the
--                           environment is decoded from JSON before, by pydantic-settings
--   Core/Middleware         src/core/middleware.py: `Process` is a process with its database, bound
--                           variables and written lines; `Ticks` has uuid4 and the performance counter
--   Auth/Config             src/auth/config.py
--   Auth/Models             src/auth/models: rows, unique keys and foreign keys; `consistent` is the test
--                           of the keys that the database makes at a commit; the lengths of a new user's
--                           row are tested before it, by `flush_user` of Auth/Accounts
--   Auth/Session            exceptions as values, and the monad of code that runs in a session: `Conn` has
--                           the committed rows, the pending changes, the number of readings of clock and
--                           random source, the mails to send and the log
--   Auth/Utils, Schemas, Times, Tokens, Http, Dependencies
--                           the files of those names in src/auth, and the helpers at the head of
--                           service.py and router.py
--   Auth/Accounts, Refresh, Google, Mail
--                           service.py: create_user and authenticate; refresh tokens; sign-in with Google;
--                           e-mail verification and password reset
--   Auth/Router             router.py, one definition for each handler
--   Auth/Sessions           the contract of service.py on sessions: a map from token hashes to open sessions;
--                           a rotation with another request between its reads and its writes
--   Auth/History            how rows may change over the life of the program
--   Core/Encryption         src/core/encryption.py
--   Payment                 src/payment/models/transaction.py: a transaction and its encrypted credentials
--   Schema, Schema/Database, Schema/Ddl
--                           tables as values, and what Alembic's operations and the SQL of the migrations
--                           do to them on PostgreSQL; a step gives the new database or a failure
--   Metadata                what mapped_column declares; Metadata/Models has the model classes of
--                           src/auth, src/tenant, src/hotspot, src/payment and src/audit, Metadata/Rows
--                           the rows of src/auth/models as values of their columns, and
--                           Metadata/Fitting which of them fit
--   Migrations              alembic/versions, one file for each revision: Users, VerificationTokens,
--                           Tenants, Encryption
--   Alembic                 alembic/env.py
--   Integrations/Email      src/integrations/email.py, and _safe_send_email of service.py
--   App                     src/main.py: `route`, `serve` for one request and `serve_all` for a sequence
--   App/Interleaving        requests at the same time: a call of service.py that reads a token and writes
--                           afterwards is two steps, and `run_steps` takes steps in any order
--   App/Stack               src/main.py with its middleware and the handler of Exception; the other files
--                           of App are about any sequence of requests
--   Demo                    a concrete `Env`, and the properties at concrete states
--
-- State and operations. A service function of the source is a definition of the same name; one that
-- the source writes as a single body is cut where a query or a `try` ends, and the comment of each
-- piece names its place. A function that raises gives `raised e`. A change of a row is pending until
-- `commit`, which writes all of it or raises `integrity_error`; closing the session drops the rest.
-- A read of the clock or of a random source has a number, and `Env` gives the value by that number;
-- that a drawn identifier or text is fresh is a hypothesis where a property needs it. All definitions
-- are total. The loop over batches of rows in the revision f29672c8ed8f takes fuel, one more than there
-- are rows, which is enough because a batch that is not the last takes a row.
--
-- Not modelled: requests that interleave elsewhere than between the reads of a token and its user and
-- the writes that follow; the lengths of columns when another row than a new one of users is written
-- (the names and addresses come in by those rows only; tokens are stored as digests of fixed length,
-- and Google keeps its account numbers below 256 characters); a text with a NUL character, which
-- PostgreSQL refuses; CORS and session cookies; the set-up of
-- structlog: how it renders a line, and the level below which it drops one (the program logs nothing
-- below INFO, the default, so the lines of the model are those at that level); the offline mode of
-- Alembic and the set-up of its engine. Rate limits are counted by slowapi, so `Env.admits` may give
-- any verdict.
pub mod Base
pub mod Runtime
pub mod Tenant
pub mod Core
pub mod Auth
pub mod App
pub mod Integrations
pub mod Schema
pub mod Metadata
pub mod Payment
pub mod Migrations
pub mod Alembic
pub mod Demo
