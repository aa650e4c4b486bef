-- ===== src/Lib.antt =====
-- A model of the plugin cli-control-account with proofs. The plugin runs in the CLIProxyAPI host.
-- It receives a usage record for each request, turns it into an event, queues the event, stores the
-- queue in batches in an SQLite database, and answers queries for totals, costs and rankings.
--
-- Which file models which part:
--   * Base, Text, TextMap and Float hold what the parts share: tests, lists, integers and 64-bit
--     words (Base.Int, Base.Word), texts as lists of bytes with the functions of `strings`, maps as
--     association lists, and the interface of the floats.
--   * Ego.Pricing is internal/ego/pricing.go and embedded_pricing.go: `NormalizeModelName`,
--     `FindModelPricing`, `ResolveTokenSemantics`, `CalculateTokenCost` and `getEmbeddedPricing`;
--     Ego.Pricing.Exact counts the tokens of a cost at the rate of one.
--   * Ego.Events is `transformToEgoEvent` and `tpsSample` of internal/ego/worker.go.
--   * Ego.Storage is internal/ego/storage.go up to `InsertBatch`, and its maintenance methods: the
--     state and the calls of the engine (Engine), events and settings (Rows), the price table and
--     its cache (Prices), and `OpenStorage` (Open).
--   * Ego.Queries is the queries of that file: the window (Window), grouping and ordering (Groups),
--     `getSummary` (Summary), `getTimeline` (Timeline), the rankings (Rankings), and the exported
--     queries by the name of a range (Ranges).
--   * Ego.Worker is internal/ego/worker.go: `Record`, `flushLoop`, `Stop`, `SetEnabled`, `GetWorker`.
--   * Ego.Counted goes from the events that the worker accepts to the summary.
--   * Ego.Handler is internal/ego/handler.go: `ServeHTTP`, `readWindow` and the endpoints.
--   * Models.Quota is internal/models/quota.go.
--   * Web is internal/web/embed.go, Resource is internal/handlers/resource.go; Text.Path,
--     Text.Unescape and Text.Number are the functions of `path`, `url` and `strconv` in use.
--   * Lifecycle is internal/lifecycle/events.go, with `DispatchEvent` in Lifecycle.Dispatch.
--   * Plugin is main.go: `handlePluginMethod` and `handleManagementHTTP`, with the answers of the
--     registration in Advertised, and Version is internal/version/version.go.
--   * Process is the C interface of main.go: `cliproxy_plugin_init`, `cliproxyPluginCall` with its
--     buffer, its request bytes and the recovery of a panic, `cliproxyPluginFree`,
--     `cliproxyPluginShutdown`, and the one worker of the process.
--   * Tests has runs on concrete inputs.
--
-- The parts interact as in the source: the worker's flush is `insert_batch` of the storage, the
-- queries read the stored events and the price cache, and the cache is the embedded price list. The
-- handler calls the queries and the worker, and the plugin's management request calls the handler.
-- A call of the host takes the process with its worker to the next one.
--
-- How the code is rendered. A method on a pointer takes an `Option`, where `none` is nil, and a
-- method that writes returns its result with the state after it. Errors are values of `Result`. A
-- call of the database engine fails when the parameter `Faults` says so, each at its own place, so a
-- theorem over all `Faults` covers each partial failure. The methods hold their lock throughout, so
-- each is one step. The goroutines of the worker are the step relation `Step`: a send, a receipt, a
-- tick, a toggle, a stop and the drain after it come in any order. Loops are recursion on the list
-- that they read, so no fuel is needed.
--
-- Parameters: the Unicode tables (record `Unicode`), the floats (record `Float`, with the laws of
-- rounding in `FloatLaws`, and of exact whole numbers in `ExactFloat`), the JSON parser, the clock, the file system, the system's MIME table and
-- the functions of SQLite that format times. SQL sums are taken to fit 64 bits. Token counts and
-- times are 64-bit words where the source computes with them. Every theorem that needs a law of a
-- parameter takes it as a hypothesis.
--
-- Not modelled: file permissions, connection pool limits, logging, the host's callbacks, which the
-- plugin stores and never calls, and the base64 and JSON text of the answers, for which the C
-- interface takes functions (`marshal`, `error_bytes`). `GetDispatcher` is called by tests alone.
-- httptest.NewRequest is modelled where the plugin relies on it: a token method and a plain target
-- are read as they are, and for everything else the parameter `parse_odd` says what is parsed, or
-- that the call panics. A request has a body in every call that reaches `handlePrune`, as in
-- net/http. An in-memory database is modelled like one on disk: closing the last connection of a
-- real one drops its rows, so what is said of the stored events after a stop is about the database
-- on disk. Addresses of blocks come from a counter, since C.CBytes gives fresh ones.
pub mod Base
pub mod Text
pub mod TextMap
pub mod Float
pub mod Ego
pub mod Models
pub mod Web
pub mod Resource
pub mod Version
pub mod Advertised
pub mod Plugin
pub mod Process
pub mod Lifecycle
mod Tests
