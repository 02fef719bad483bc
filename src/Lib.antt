-- ===== src/Lib.antt =====
-- ollama_proxy: an HTTP proxy before ollama.com that spreads requests over several accounts.
--
-- The parts and how they interact
--
-- A request to the proxy passes `require_user_token` (app/api/deps.py), which asks the token service
-- (app/services/user_token_service.py) who the bearer is. A chat completion
-- (app/api/v1/proxy.py) then goes to the rotation (app/services/rotation.py). The rotation asks the
-- key manager (app/services/key_manager.py) for a key that no other request holds, opens it with the
-- vault (app/services/vault.py), calls the upstream with it (app/services/ollama_client.py) and tells
-- the manager the outcome, which the manager keeps in the table of keys (app/models/api_key.py): a
-- key is active, depleted until its cooldown ends, or disabled. On an outcome that another key may do
-- better with, the rotation goes on to the next key, for a bounded number of attempts. The listings of
-- the models go through the cache (app/services/model_cache.py) and use one key the same way. The
-- administration (app/api/v1/admin.py) creates, patches, deletes, probes and resets the keys behind
-- `require_admin_token`, with what it shares with the dashboard (app/services/_keys_ops). The usage
-- service (app/services/usage_service.py) asks the upstream what each account has used, keeps the
-- answers for a while and stores them beside the keys, on request and in the background. The dashboard
-- (app/api/dashboard_routes.py) is the same administration as pages and forms: its sessions and CSRF
-- tokens are signed (app/services/dashboard_auth.py, app/api/deps_dashboard.py), and its operations run
-- in the process (app/services/dashboard_backend.py). app/main.py starts all of it, with the engine and
-- the migration of app/db/session.py, and every part writes log records that app/core/logging.py masks.
--
-- Which file models what
--
-- Clock: `datetime`, `timedelta` and the two helpers that make a datetime aware.
-- Exec: exceptions, results, and code that changes a state and may raise (`Exec S A`), with
--   `try`/`finally`.
-- Python: floats and decoded JSON. Table: the rows of a table and the SQL that the services use.
-- Models: app/models/api_key.py and app/models/user_token.py; a column without a value is `none`.
-- Vault: the class of app/services/vault.py, and `safe_decrypt` of app/services/_keys_ops/vault.py;
--   Vault.MasterKey has the resolution of the master key.
-- OllamaClient: app/services/ollama_client.py; OllamaClient.Probe has its `probe`.
-- KeyManager: `pick_next_key` (`scan`, `choose`), `release`, `count_by_status` and the reactivation of
--   app/services/key_manager.py. Its state is a `Pool`: the database beside `next_idx` and `in_flight`.
--   KeyManager.Records has the five `record_*` methods, KeyManager.RetryAfter has
--   `extract_retry_after`. Scan, Pick, InFlight, Counts, Windows, Lifecycle and Calls prove.
-- Rotation: app/services/rotation.py. Rotation.Attempt has one attempt (`dispatch_one`) and
--   `wait_for_free_slot`, Rotation.Replies builds answers and reads the usage, and
--   `execute_with_rotation` runs its loop as `rotate_from` over `round`. Rotation.Loop has the loop's
--   invariant rule, and the other children prove.
-- ModelCache: the class of app/services/model_cache.py.
-- UserTokens: app/services/user_token_service.py, with Authenticate, Lifecycle and Hashes to prove.
-- Guards: `_extract_bearer` and the two guards of app/api/deps.py.
-- Proxy: the routes of app/api/v1/proxy.py and the schemas of the listings in app/schemas/proxy.py.
-- KeysOps: app/services/_keys_ops (`load_or_404`, `require_probe_model`, `ProbeClassifier`,
--   `probe_all_active`, `build_health_snapshot`).
-- AdminKeys: the key routes of app/api/v1/admin.py and `ApiKeyOut` of app/schemas/api_key.py.
-- Usage: app/services/usage_service.py and the routes of the usage in app/api/v1/admin.py; Usage.Parse
--   reads the payloads of the upstream, and Usage.Store writes the snapshots to the keys. The state is a
--   `Desk`: the pool beside the service's cache.
-- DashboardAuth: app/services/dashboard_auth.py; DashboardAuth.Guard has app/api/deps_dashboard.py.
-- DashboardBackend: `InProcessDashboardBackend` of app/services/dashboard_backend.py.
-- DashboardClient: app/services/dashboard_client.py, the same operations over HTTP, which the program
--   does not use.
-- Dashboard: app/api/dashboard_routes.py, its cookies and its login; Dashboard.Keys, Usage and Tokens
--   have the pages and the forms, Texts has what they say, and Filters has
--   app/core/dashboard_filters.py. Access lists all pages and forms as routes.
-- App: `lifespan`, the background loop, the CORS settings and the health check of app/main.py;
--   App.Config has app/core/config.py and App.Database has app/db/session.py.
-- Logging: the masking of app/core/logging.py.
-- AdminUserTokens: app/api/v1/admin_user_tokens.py and app/schemas/user_token.py.
-- A module Tests runs the definitions on concrete values.
--
-- How the code is rendered
--
-- Moments are microseconds since the epoch. A float is its truncation with a code for the rest, since
-- the program only ever truncates it. The names of HTTP headers are ASCII. The database is what one
-- session sees and commits at a time: a row is read and written as a whole, ids are handed out as
-- SQLite hands out an INTEGER PRIMARY KEY, and a datetime keeps the zone that it was written with,
-- which no code asks of a stored value without making it aware first. The lock of the key manager
-- makes each pick and each release one step; KeyManager.InFlight interleaves such steps freely. What
-- other tasks do while a request waits is given with its environment (`others`, `meanwhile`, `polls`),
-- and a theorem that needs them to behave says so as a premise.
--
-- Bounds and fuel
--
-- The loop of the rotation runs on `max_iter`, the number of its attempts in the source. The wait for a
-- free slot runs on `wait_rounds` = 1001 rounds: the source sleeps 10 ms a round for at most 10 s, so
-- that the test of the last round finds the time over.
-- A float of a number is found by at most 971 halvings, since a larger one has no float.
-- `scan` runs on the number of the active keys, as the source's `range(n)` does.
--
-- What is a parameter
--
-- SHA-256, the Fernet cipher, the HTTP client, `float` of a text, FastAPI's split of the Authorization
-- header, JSON decoding of a request and pydantic's validation, and what `secrets` returns; the
-- serializers of itsdangerous, with their laws (`IsSerializer`); the text of a JSON value, of a moment
-- and of an exception, and `datetime.fromisoformat`; `str.lower` and `str` in the settings and in the
-- masking. A template is its name with its context.
--
-- What is not modelled
--
-- The substitution in the text of a log message, which is a regular expression; what FastAPI, SQLAlchemy
-- and loguru do when they are put together; the two hooks of app/db/session.py for tests. Log lines, the
-- texts of foreign exceptions, latencies, and the forwarding of a streamed body's bytes are left out of
-- what is modelled. The integers of the database are unbounded here, and 64 bits wide in SQLite.
-- A payload of the upstream is never nested so deeply that its decoding ends in a RecursionError; the
-- body of a request can be.
-- What the upstream answers in the forced fetches of a refresh of all keys is taken one key after the
-- other: each fetch touches the cache and the lock of its own key alone.
pub mod Prelude
pub mod Clock
pub mod Exec
pub mod Python
pub mod Table
pub mod Models
pub mod Vault
pub mod OllamaClient
pub mod KeyManager
pub mod Rotation
pub mod ModelCache
pub mod UserTokens
pub mod Guards
pub mod Proxy
pub mod Usage
pub mod DashboardAuth
pub mod DashboardBackend
pub mod DashboardClient
pub mod Dashboard
pub mod App
pub mod KeysOps
pub mod Logging
pub mod AdminKeys
pub mod AdminUserTokens
