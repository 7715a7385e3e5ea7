-- ===== src/Lib.antt =====
-- The civic archive API (app/): a FastAPI service that stores news, minutes and speech segments of
-- local councils, behind API keys, bearer tokens and a rate limit.
--
-- Prelude holds what the modules share. Text is Python's str methods, Dict a dict as an association
-- list, Json the values of a decoded document; Errors the exceptions as values. The rest:
--   Responses   app/errors.py and app/bootstrap/exception_handlers.py: the answer to an exception
--   Config      app/config.py: the settings and their derived properties
--   Startup     app/bootstrap/validation.py: validate_startup_config, as lists of checks
--               in order (Checks, Sound and Strict say what each asks, Accepts is the whole)
--   Http        what the code reads of a Starlette request
--   RequestSize app/bootstrap/middleware.py: request_size_guard before any handler, with what
--               it delivers (Delivery) and answers (Answers)
--   Repositories  app/repositories: Rows is a table and the SQL statements on it, Common is
--               common.py and search.py, News, Minutes and Segments are the three
--               repositories; Dedupe, Upsert, Batch, Pages, Removal, Distinct and Lookup are
--               their laws, and News.Archive sets the news table against an archive by URL
--   Services    app/parsing.py, app/utils.py and app/services: Dates (Iso reads back what is
--               written), Values (texts, meeting numbers), Canonical (canonical JSON), Importance,
--               News, Minutes and Segments; under the latter Payload and Hashes are about the text
--               that the dedupe hashes are made from, which Json.Dumps writes
--   Routes      app/routes/common.py, and app/routes/news.py, minutes.py and segments.py over
--               Services and Repositories; Deletion is what the three have in common
--   Proxy       app/security_proxy.py: client_key behind trusted proxies
--   Jwt         app/security_jwt.py: the sets of claims, scopes of methods, authorisation
--   RateLimit   app/security_rate_limit.py: Memory is InMemoryRateLimiter, Redis is
--               RedisRateLimiter (Shared: processes that share a server, whose keys expire), Build
--               is build_rate_limiter and the health check
--   System      health_ready of app/bootstrap/system_routes.py
--   Protected   app/security_dependencies.py, build_rate_limit_dependency of
--               app/security.py, and the order of protected_dependencies in app/__init__.py
--   Observability  app/observability.py: the middleware around all of this, with its labels
--               (Bounds), its answers (Requests) and what it counts and logs over a history of
--               requests, those behind request_size_guard among them (History); Logging is
--               app/logging_config.py
--   Migrations  migrations/versions: the operations of Alembic on a schema, and the four
--               Revisions; Consistent, Inverse and Undo show what a downgrade takes back
--   Scripts     scripts/check_runtime_health.py (RuntimeHealth) and
--               scripts/check_commit_messages.py (CommitMessages)
--
-- State is passed on: a limiter is a record that allow takes and returns, and the Redis server is a
-- state that the client's operations take and return. An exception is a value of Result. Times are
-- natural numbers: seconds of the wall clock, nanoseconds of the monotonic one. One call of allow
-- is one step; the lock of the in-memory limiter and the single thread of Redis make it so. Decimal
-- numerals are written on fuel: suc n steps for n, more than it has digits.
--
-- The ipaddress module, PyJWT's decode, the redis client, SHA-256, the texts of floats,
-- datetime.fromisoformat and the strptime formats of datetimes are parameters; so are the matching
-- of routes, the scheme of a URL and the server that the health check asks. What they do is a
-- hypothesis only where a theorem says so (IsRedis: the client runs the script of INCR and EXPIRE
-- in one step, and the server deletes keys that expire). Text.upper has the letters outside ASCII
-- whose upper case is ASCII, which the tests of methods see; lower is of ASCII letters and the
-- Kelvin sign, the one other letter whose lower case is ASCII.
--
-- A SQL statement is a function of a table, and a statement that fails leaves the table as it was.
-- It fails where a row does not fit the columns: a text VARCHAR(255), a number its bits; what else
-- PostgreSQL refuses of a row, such as a text with the character 0, is the parameter accepts. In
-- PostgreSQL the tests of text (ILIKE, the text search), the reading of dates and the text of JSON
-- columns are parameters.
--
-- The metrics and the logger are lists of the calls made of them, and an elapsed time is a number
-- of nanoseconds, which the log rounds to hundredths of milliseconds. A migration is a list of
-- operations on tables, indexes and extensions, each of which PostgreSQL refuses or applies; what
-- happens to the stored rows is left out. A check of the health script makes at most retries + 1
-- attempts, on which its loop recurs.
--
-- Not modelled: reading the environment, the framework's routing, the validators of app/schemas.py,
-- the metrics endpoint, the connection pool of app/database.py, and the scripts that read the
-- repository's documents or run processes.
pub mod Prelude
pub mod Text
pub mod Dict
pub mod Json
pub mod Errors
pub mod Responses
pub mod Config
pub mod Startup
pub mod Samples
pub mod Http
pub mod RequestSize
pub mod Services
pub mod Repositories
pub mod Routes
pub mod Proxy
pub mod Jwt
pub mod RateLimit
pub mod System
pub mod Protected
pub mod Observability
pub mod Migrations
pub mod Scripts
