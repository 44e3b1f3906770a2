-- ===== src/Lib.antt =====
-- The console of tarisya, the web application in TypeScript under console/src, and the part of the
-- core, the server in Go under internal/core, that it changes servers by. The console signs a user
-- in, lists the monitored servers, creates and deletes them and rotates their API keys, and shows
-- the measurements that a server reports. React renders it, the router chooses its pages, and
-- @tanstack/react-query keeps what the API answered. The core keeps users, servers, the hashes of
-- their API keys and their metrics in an SQLite database and answers the calls of the console and
-- of the agents.
--
-- Parts. Paths are below console/src, and for Core from the root of the repository. A function of
-- the source has the same name here in snake_case: `apiFetch` is `api_fetch`. A hook or component
-- becomes a function from the values of its hooks and props to what it returns. A component with
-- state has a record of its state and a function for each handler; where a handler awaits an
-- answer, a second function `answered` is what its callbacks do when the answer arrives, so that
-- every order of answers and clicks is a sequence of steps.
--
-- - Prelude: shared names of the library, Boolean tests, decimal notation, and lemmas on lists,
--   integers and decimals.
-- - Jsx: trees of elements, with the handlers of the elements as attributes, and the texts,
--   keys and clicks that a tree shows.
-- - Types: the payloads of types/auth.ts, types/server.ts and types/system-metrics.ts. Double: the
--   floating point numbers of the measurements, as an interface of comparisons and texts with the
--   laws of IEEE 754 that the theorems need.
-- - Dict, Json, ApiClient: lib/api-client.ts. Api: the calls of features/*/api.ts.
-- - Queries: the keys and options, with the retry policies, of features/*/hooks.ts, and in Queries.Cache what
--   the mutations do to the cache.
-- - Mutations: the interface of the mutation observer that the dialogs and the login form use, with
--   a reference implementation that shows that its laws can hold.
-- - Login: features/auth/login-form.tsx. Routes: App.tsx, features/auth/protected-route.tsx and
--   pages/login-page.tsx. Layout: config/nav.ts and components/layout.
-- - Servers: components/servers and pages/servers-page.tsx.
-- - Metrics: config/metrics.ts, hooks/use-metric-series.ts and hooks/use-metric-color.ts. Format:
--   lib/format.ts and hooks/use-relative-time.ts.
-- - Sidebar: components/ui/sidebar.tsx and hooks/use-mobile.ts: the provider, the sidebar and its
--   trigger.
-- - Dashboard: pages/dashboard-page.tsx and components/dashboard.
-- - Theme: components/theme-provider.tsx and components/theme-toggle.tsx.
-- - Core.RateLimit: internal/core/rate_limit.go, in nanoseconds. Its tokens are of an
--   abstract floating point type, and Core.RateLimit.Rounding has the laws of its arithmetic, up
--   to a given rounding, and the exact numbers as one that meets them;
--   Core.RateLimit.Coarse is one that rounds. Core.RateLimit.Steps has the
--   accounts that the limiter implements, Bounds the bound on what passes, and Retry when a
--   refused client may come back.
-- - Core.Database, Core.Sql, Core.Store: the tables of migrations/000001_initial_schema.up.sql,
--   what statements do to them, and the operations of internal/core/store.go on servers, keys and
--   metrics. Core.Store.Registry is what they promise, Core.Store.View what the tables say of it,
--   Core.Store.Integrity what holds of the tables, Core.Store.Pages the history page by page,
--   with the handler metricsHistory of internal/core/http.go, and Core.Store.Servers the servers
--   of a user with their statuses.
-- - Core.Retention: internal/core/retention.go, the moves of old metrics to tables of lower
--   resolution.
-- - Core.Http: the handlers of internal/core/http.go that change servers, behind the session and
--   the rate limit; Core.Http.Console: the console's calls, answered by them; Core.Http.Ingest:
--   the handler that takes an agent's metrics.
--
-- A page is reached by Routes, which puts it in the frame of Layout. The dialogs of Servers and
-- the form of Login send the calls of Api, whose answers come from ApiClient, and change the cache
-- as in Queries.Cache; the pages read the queries of Queries. The tables and charts show their
-- texts by Format and Metrics. In the core a request passes the rate limit, then the handler
-- checks the session and calls the store; Core.Http.Console hands the response to ApiClient.
--
-- Fuel. Two functions are on fuel. `follow` in Core.Store.Pages is a client that reads a page for
-- each unit; one more than the server has rows is enough. The other is the decimal notation of a
-- number, `show` in Prelude.Decimal; it has one more unit of fuel than the number, and a digit
-- more leaves a smaller number: more fuel gives the same text. Numbers of the source that count
-- (statuses, seconds, thresholds) are natural numbers or integers without a bound: the code stays
-- far below 2 ^ 53 for every date and uptime that the API can send.
--
-- Parameters, since their code is not in the repository: `fetch`, `JSON.stringify` and the text of
-- a thrown value; the query cache and the mutation observer, by their documented laws;
-- `Date.parse` and the formats by locale; floating point comparisons and texts; the query string
-- of the address; the joining of class names. In the core: SHA-256, the parsing of a session, the
-- random identifiers, the clock, `strings.TrimSpace`, `strings.Cut` and `strings.EqualFold`, the
-- tests of a float64 and the arithmetic of the rate limit on it, the length of a text in bytes,
-- and the text of a time.
--
-- Not modelled: the other elements of console/src/components/ui, which wrap a component library
-- and are named in the trees; memoisation and timers, save where a theorem names their effect; the
-- hook useServerMetrics, which renames the fields of a query's result; main.tsx and lib/utils.ts.
-- Of the core: failures of the connection and of the file other than a full one, users and
-- passwords, sessions, the other handlers, charts, configuration, locks and backups; the agent and
-- the command line in Go.
pub mod Prelude
pub mod Jsx
pub mod Format
pub mod Types
pub mod Double
pub mod Metrics
pub mod Dict
pub mod Json
pub mod ApiClient
pub mod Api
pub mod Queries
pub mod Theme
pub mod Mutations
pub mod Servers
pub mod Dashboard
pub mod Login
pub mod Routes
pub mod Layout
pub mod Sidebar
pub mod Core
