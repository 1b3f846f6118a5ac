-- ===== src/Lib.antt =====
-- Stock monitor: a model of backend/app in this repository, and the theorems that make it correct.
--
-- The monitor scrapes quick-commerce retailers for the products that users watch, detects changes
-- and alerts the users. The parts, and the files that model them:
--
-- - Domain: backend/app/domain. Entities and enums as records and data types, the abstract ports
--   as records of actions (Ports), exceptions as values (Errors). An `Action` is a method that
--   reads and writes a state outside it and may raise; the state comes back with an error too.
-- - Storage: backend/app/infrastructure/db. `Rows` has a record for each table of models.py,
--   `World` the state that a session sees, and each repository of repositories.py has a module
--   with a function for each method. `Session` is the session that `get_session` and the Celery
--   task open, with its commit and rollback, and `Retailers` also has the seeding of seed.py.
--   `Private` is what belongs to a user. `Schema` has the tables of the migration
--   backend/alembic/versions/0001_initial_schema.py (`Initial`) beside those that models.py
--   declares (`Models`), and what the migration does (`Migration`).
-- - Messaging: infrastructure/cache/redis_publisher.py and infrastructure/tasks_dispatch.py.
-- - Monitoring: application/diffing.py (`Diffing`) and application/monitoring_service.py
--   (`Service`), wired to the adapters as monitor/main.py does (`Wiring`).
-- - Scheduling: monitor/scheduler.py, a pass with its checks one after the other (`Passes`), also
--   while every retailer is down (`Outage`).
-- - Monitor: `main` of monitor/main.py, which runs the scheduler over the adapters. `Ledger` and
--   `Passes` are about the tasks of a run, `Uncommitted` about what the workers make of them.
-- - Providers: infrastructure/providers. The four retailers' classes differ in their constants, so
--   `Text`, `Pages` and `Navigation` are their methods, once, over a `Shop` of constants, which
--   `Blinkit`, `Zepto`, `Instamart` and `Bigbasket` fill; `Registry` is registry.py, and `Wiring`
--   what monitor/main.py registers. `Closing`, `Steps`, `Methods`, `Retries` and `Visits` are
--   about the pages that a method opens, `Documents` and `Reading` about what it reads in one.
-- - Realtime: infrastructure/cache/redis_subscriber.py (`Subscriber`) and api/websocket.py
--   (`Socket`).
-- - Auth: application/auth_service.py and core/security.py (`Service`), wired as api/deps.py does
--   (`Wiring`), the routes of api/routers/auth.py (`Routes`), and the verification request in its
--   session (`Requests`).
-- - Notification: application/notification_service.py (`Service`), wired as tasks/notifications.py
--   does (`Wiring`), and the senders of infrastructure/notifications (`Senders`). `Keys`,
--   `Everyone` and `Tasks` are about a whole event.
-- - Analytics: application/analytics.py, its downtime windows and restock count, and the summary
--   (`Summary`).
-- - Api: the handlers of api/routers, each for the user of the request, with the bodies of
--   api/schemas (`Schemas`); the user of a request from api/deps.py (`Deps`), and the exception
--   handlers of api/main.py with api/error_logging_middleware.py around a route (`Main`), also
--   around routes that raise one after the other (`Failing`).
--   `Routers` gives the handlers their repositories, and `App` is the application that
--   `create_app` builds, for any sequence of requests; `Lifespan` is its startup and shutdown.
--   `Ownership` is about single routes, `Isolation` about the application.
-- - Common: lists, numbers, JSON values and decimal texts. Tests: concrete runs.
--
-- The services are written over the ports, as in the source, and the adapters fill the ports; the
-- theorems are about the services with the SQL adapters, unless they hold over every port.
--
-- Parameters stand for code that is not in the repository: `Engine` for the database and SQLAlchemy
-- (fresh keys, `scalar_one`, `scalar_one_or_none`, ORDER BY with ties in any order), `Jwt`, `Hash`
-- and `randbelow` for PyJWT, SHA-256 and the random source, `Senders` for what the notification
-- service sends with, `HttpClient` and `Smtp` for httpx and smtplib, `Runtime` for what main calls
-- of redis-py, SQLAlchemy and asyncio, `Op` for Alembic on a database, `Formatting` and `Floats`
-- for Python's formatting and float arithmetic, `Playwright` and `Tools` for the browser, tenacity
-- and Python's text functions, `PubSub` and `WebSocket` for Redis and the socket. A browser that
-- serves one document, a feed of messages and a mail server that is down stand in Tests.
--
-- A datetime counts microseconds from `datetime.min`, a float is its bit pattern, an `int` that may
-- be negative is a ℤ, and a key is a natural number. The clock stands still within one operation; a
-- request to the application brings the time at which it comes. Every loop of the source runs over
-- a list and is structural recursion, but three: the retries count their attempts down, and the
-- relay of the socket and the scheduler's loop, which have no end, run for a given number of turns.
--
-- Not modelled: the laws of float arithmetic, so that percentages and means have a definition but
-- no theorem; logging, settings, CORS and what starts the processes; the frontend. What concurrent
-- checks that share one session do to one another, and how many of them the semaphore of the
-- scheduler lets overlap, is not modelled either, and requests are served one after the other. The
-- monitor is stopped between two passes. Redis and Celery take whatever they are handed; a raise of
-- theirs is not modelled. The `created_at` of a published event is the count of a datetime, not the
-- text that `isoformat` makes of it.
--
-- Of the foreign keys the model enforces the two that a delete can break, of watches to their
-- product and of notification logs to their channel: the delete raises an `IntegrityError`. The
-- others, which only an insert could break, and the unique constraints are not enforced; a theorem
-- that needs one has it as a hypothesis.
pub mod Common
pub mod Domain
pub mod Storage
pub mod Messaging
pub mod Monitoring
pub mod Auth
pub mod Notification
pub mod Analytics
pub mod Api
pub mod Scheduling
pub mod Tests
pub mod Monitor
pub mod Providers
pub mod Realtime
