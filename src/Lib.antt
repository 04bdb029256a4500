-- ===== src/Lib.antt =====
-- sprawler enumerates the sites of a SharePoint Online tenant with their users, groups and
-- profiles, and stores them in SQLite. This library models its parts in the order of its data flow.
--
-- How the program works. A processor (internal/processors) reads the sites that the API client
-- (internal/api) lists, filters them (site_filter.go), and dispatches each to pools of workers that
-- fetch its users and groups. The entities go through channels to the storage (internal/storage),
-- which hands them to the batch writer (internal/batchwriter). The throttle scaler
-- (internal/throttle) holds one token for each worker that may run, and takes tokens away when the
-- API's counts of throttled requests rise. An error is classified twice: by the transport, which
-- retries transient ones (internal/api/transport_errors.go), and by the processor, which records
-- it in the outcome of the site (internal/processors/helpers.go, outcome_collector.go).
--
-- Around this, main (cmd/sprawler) loads the configuration (internal/config), opens the storage,
-- checks and runs the processors, and marks and archives the run; the clients take their tokens
-- from internal/auth; each processor keeps its metrics and reports its progress
-- (internal/metrics) to its logger (internal/logger).
--
-- Which file models which part:
--   Common        numbers, lists, signed integers, texts and maps with string keys, with their
--                 lemmas
--   Model         the records of internal/model
--   Throttle      internal/throttle/throttle_scaler.go: Defs has the scaler, `tick`, `scale_down`,
--                 `scale_up`, `acquire`, `release`; Interleaving has the atomic steps of all
--                 goroutines as a relation; Limits, Signals, Recovery and Tokens are about these
--   BatchWriter   internal/batchwriter/batch_writer.go: Defs has the flush (`flush_locked`), Loop
--                 the goroutine (`run`) with `add` and `close`; Counts, Accounts, Kinds, Order,
--                 History and Closing are about these, by the one rule of Rule
--   Errors        `isTransientNetError`, `parseError` and their parts, over a data type of errors
--   Api           internal/api: Transport (`RoundTrip` of client.go with its gate and retries),
--                 Metrics (the hooks of client.go and counter_map.go), Listing (`GetSites`,
--                 `GetPersonalSites`), Fetch (`GetSiteUsers`, `GetSiteGroups`, `GetUserProfile`,
--                 internal/api/csom); each has its operations in Defs
--   Storage       internal/storage: Rows (the rows of the entities), Defs (hooks, operations and
--                 streams), Files (`saveOutcomes`, closing, archiving), Opening (`NewStorage` of
--                 factory.go and its steps, the run's status); Batches, Stored, Queue, Opened,
--                 Kept and Outcomes are about these
--   Processors    Filter (site_filter.go), Outcomes (outcome_collector.go) and SharePoint
--                 (sharepoint.go): Defs has the handlers (`filter_sites`, `dispatch_site`,
--                 `finish_users`, `finish_groups`, `finalize`), Pipeline the goroutines as events;
--                 Books, Workers, Sound, Runs, Finished and Progress are about these;
--                 OneDrive (onedrive.go): Defs has `process_site`, whose worker shares only
--                 counters and channels, and Accounts is about it; Results has `ProcessorResult`
--                 (interfaces.go) and `collectResults` of both processors; Setup has what `Process`
--                 sets up around the workers, and Summary the texts of `buildSummary` and of
--                 helpers.go
--   Config        internal/config/config.go: Defs has the readers with their fallbacks, Load
--                 `loadConfigFromEnv`; Unset, Kept and Loaded are about it
--   Progress      internal/metrics: Defs has run_metrics.go and types.go; Snapshot, Format and
--                 Report have progress_reporter.go; Lines, Sections and Logged are about these
--   Logger        internal/logger/logger.go
--   Auth          internal/auth/entraid: Defs has the token cache, `GetToken`, the choice of the
--                 cloud and the provider of the client credentials, File their
--                 file; Keys, Tokens and Served are about these
--   Main          cmd/sprawler/main.go: Defs has `main` over the parts it wires, Order is about it
-- Names are those of the source, in lower case with underscores.
--
-- Conventions. Counters, instants and durations are natural numbers, and signed counts (the live
-- tokens, the workers that remain for a site) integers; they stay far below the bounds of their
-- machine types. Where a bound is in reach, as for the pause of a Retry-After header and the
-- numbers of a date, the wrap-around is written out. Time is an argument. A mutex makes the
-- calls under it one step. Concurrency is a list of events or a relation of steps, so that a
-- theorem holds for every order; a worker starts in a step that its pool and the scaler's tokens
-- allow. A site's size is a float64, kept as mantissa and exponent. Loops follow the list of
-- their events, replies or sites, and `release_all` and the tick trains the number of tokens or
-- ticks; `drain` takes a bound, the work that is left, and its theorem says that it is enough;
-- `itoa` has fuel for 20 digits, which the numbers of 64 bits do not exceed. The texts of
-- errors, URL parsing, `time.ParseDuration`, the floating-point arithmetic of the progress
-- report, go-cache, JSON, operations on the database, on files and hooks are parameters, with
-- what the code relies on as named laws.
--
-- Not modelled: `LogConfig`; the making of channels, goroutines and tickers; `NewClient` and
-- `HealthCheck` of internal/api, whose requests are gosip's; the XML template of
-- internal/api/csom/query_builder.go; the SQL that sqlc generates. These are calls of other
-- libraries or text.
pub mod Api
pub mod Auth
pub mod BatchWriter
pub mod Common
pub mod Config
pub mod Errors
pub mod Logger
pub mod Main
pub mod Model
pub mod Processors
pub mod Progress
pub mod Storage
pub mod Throttle
