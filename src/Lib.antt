-- ===== src/Lib.antt =====
-- A model of the FastAPI product template and the theorems that its core is correct by.
--
-- The program is a web service over a SQL database. Requests reach the services of app/services,
-- which call the repositories of app/db/repositories on one session per request; a service answers
-- with a `ServiceResult`. A metered feature costs units of an account's entitlement: the request
-- reserves them, does its work, and then commits or releases the reservation. Background tasks go
-- through a message queue to a worker, which runs each task once and retries the ones that fail.
-- A registration stores such tasks as events of an outbox beside the user, and a job publishes them.
--
-- Files and what they model:
--   Prelude   shared names, Boolean tests on numbers, lists of rows, integers, dictionaries
--   Exec      Python calls that read and change a state and may raise; `ServiceResult`
--   Db        app/db/models as records (Db/Rows), and the session (Db/Orm). SQLAlchemy is not the
--             program's: `Session` is a record of the calls that the code makes of it, with the
--             laws that they document: what a session shows, what is saved, and that any call may
--             raise; whether loaded dates carry a time zone is a field of it. Db/Demo has sessions that meet the laws, for examples.
--   Billing   app/services/entitlement_service.py (Billing/Enforcement), billing_service.py
--             (Billing/Grants), and the repositories of entitlements, reservations and usage events.
--             The other files prove what each call saves, then what holds of any sequence of calls.
--   Items     app/services/item_service.py (Items/Service) and app/db/repositories/item.py.
--             Items/Charge, Charged, Writes and Changes tell what a write saves with its charge.
--   Auth      app/services/auth_service.py: sign-in (Auth/Login), the rotation of refresh tokens
--             (Auth/Rotation) and the messages that verify an email or reset a password
--             (Auth/Confirm), with the repositories of users (Auth/Users) and of revoked tokens
--             (Auth/Tokens). Passwords, signed tokens and random identifiers are the record `Crypto`.
--             Auth/Password and Auth/Links are the policy and the links of app/core/security.py.
--   Registration  app/services/user_service.py and `create_user_with_outbox` of
--             app/db/repositories/user.py (Registration/Create)
--   Outbox    app/worker/outbox.py and app/db/repositories/outbox_event.py (Outbox/Events),
--             app/jobs/dispatch_outbox.py (Outbox/Dispatch), app/jobs/report_outbox.py and the
--             users of app/services/outbox_service.py (Outbox/Report). What the broker answers to
--             the publication of an event is a parameter.
--   Replay    app/jobs/replay_dead_letter_queue.py (Replay/Queue). What the broker answers to the
--             calls of the channel is a parameter (Replay/Channel), with no law on it.
--   Cache     app/core/cache.py: the in-memory backend (Cache/Memory) and the functions over it
--             (Cache/Json)
--   Settings  app/core/settings/validation.py (Settings/Validation)
--   Api       app/api/deps.py (Api/Access), app/api/errors.py (Api/Errors), and the endpoints of
--             app/api/v1/auth.py that sign in, refresh and log out behind the limiter (Api/Login)
--   Jobs      app/jobs/bootstrap_platform_admin.py (Jobs/Bootstrap)
--   Retry     app/core/resilience.py: `retry_call` (Retry/Call) and the policies (Retry/Policies)
--   Worker    app/worker/runner.py (Worker/Runner), idempotency.py, tasks.py. The channel of the
--             broker, the clock and the handlers are the record `Environment`.
--   RateLimit app/core/rate_limit.py: the in-memory limiter (RateLimit/Memory), the Redis limiter on
--             a client that is a parameter (RateLimit/Redis), and the checks of the endpoints
--             with the in-memory one (RateLimit/Requests)
--
-- A function of the code is a function of the same name. A method whose body reads and decides in
-- turn is split at each read, so that `commit_reserved_usage` calls `commit_found` with the row that
-- was found, and that calls `commit_from`; a call that runs in a `try` block is `try_repository` or
-- `try_except`. What was changed before a raise stays changed.
--
-- Bounds: numbers are natural numbers, with integers where the code subtracts or is given any
-- integer; Python's integers do not overflow. Dates are microseconds. Loops count down the calls
-- that are left to them, as their ranges and limits do: no function needs fuel.
--
-- Not modelled: HTTP routing, logs, metrics, providers of email and webhooks, the declarations of
-- settings, migrations, since they are input and output or declarations; messages of errors, which
-- are fixed texts; locks of threads and rows, since a call runs whole, while calls of different
-- requests come in any order; the Redis stores of the worker and the cache; the cached listings.
pub mod Prelude
pub mod Exec
pub mod Db
pub mod Billing
pub mod Worker
pub mod Auth
pub mod RateLimit
pub mod Items
pub mod Outbox
pub mod Registration
pub mod Cache
pub mod Retry
pub mod Replay
pub mod Settings
pub mod Api
pub mod Jobs
