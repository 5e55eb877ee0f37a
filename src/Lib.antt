-- ===== src/Lib.antt =====
-- relaydot is the controller of a fleet of agents: a web server that keeps devices, their commands and
-- their model usage in one SQLite database. This library models the core of its server code, which
-- stands in apps/web/src/lib, and proves what the parts promise.
--
-- The parts and their files:
--   store.ts is Store, with a module for each group of methods over one database (Store/Schema: the
--     rows of types.ts and the tables of migrations.ts). Store/Enrollment: enrollment tokens, devices
--     and their credentials. Store/Sessions: administrator sessions. Store/Commands: the durable
--     command queue of the devices. Store/Usage: usage facts, ingested objects, repricing.
--     Store/Catalog: approved prices, the catalog of models with its review queue, and the records of
--     checks and ingest runs. Store/Storage: the shared WebDAV backend and the audit list.
--   prices.ts is Prices: the price seed and the cost of a fact, which Store/Usage and Analytics call.
--   usage-parse.ts is Transcripts, with Transcripts/Claude (parseClaude), Transcripts/Codex
--     (parseCodex) and Transcripts/Jsonl (readJsonl and parseByPath, with isHistoryPath of ingest.ts).
--   analytics.ts is Analytics: summarizeUsage over the facts and prices of the database, with
--     Analytics/Labels for the texts of amounts and times.
--   yaml-lite.ts is Yaml: Yaml/Scalars, Yaml/Lines and Yaml/Blocks, with the reader of a whole text,
--     parse_yaml. Its other modules are proofs; Yaml/Printer is a printer for them, which the program
--     does not have.
--   catalog.ts is Sources (the declared sources, from the value that Yaml reads), Sources/Loading
--     (loadCatalogSources, from the path of the file), Sources/Refresh (readModelList and
--     refreshCatalog) and Fetch, the fetch of a declared source under its limits.
--   webdav.ts is Webdav: the base URL, paths, and the client over the answers of a server.
--   crypto.ts and storage.ts are Crypto: the envelope of a stored password, and the credentials of the
--     configured backend. config.ts is Settings, over the environment.
--   ingest.ts is Ingest, from the manifests to the facts, with Ingest/Runs for a whole run.
--   security.ts is Throttle (loginThrottle, whose window objects carry an identity, since requests keep
--     them while they wait) and Access (cookies, origins, tokens), where requireAdmin and requireDevice
--     of api.ts stand too, over Store/Sessions and Store/Enrollment.
--   api.ts is Api: what the handlers share, Api/Devices (enrollment, devices, commands), Api/Rates and
--     Api/Prices (the approval of prices, the statuses of models), Api/SignIn (sign-in, whose two
--     halves stand around the wait for the body, and sign-out), Api/Storage (the backend, its probe,
--     its credential for a device, the ingest on demand) and Api/Catalog (the catalog's page and the
--     check on demand). They call Store, Crypto, Webdav, Ingest and Sources.
--   worker.ts is Worker: the jobs, which call Ingest and Sources, and the rows that a start writes, with
--     processOneJob and enqueueUnique of store.ts; and Worker/Schedules, with registerSchedules of
--     store.ts, whose result is the calls that it makes of the scheduler.
--
-- How the code corresponds. A function, method or field keeps its name, in this library's spelling:
-- claimCommands is claim_commands. A table is the list of its rows in the order of insertion, and the
-- statements are the functions of Prelude/Rows (select, first, update, delete, order_by). A method that
-- may throw is an Exec, which returns a result beside the database; transaction undoes the writes of
-- what throws. Constraints of the schema that a statement can violate are part of that statement. What
-- a call reads from the clock and the random source comes in a record Draw. JSON.parse,
-- JSON.stringify, Number.parseFloat, the names that every object inherits, SHA-256, the cipher,
-- base64, UTF-8, Date.parse, URL parsing, text order by locale, the file system and the network are
-- parameters. Numbers are exact: the program's doubles agree with them on whole numbers below 2^53, and
-- may round a product or a quotient to the other side of a half or of a threshold. Where docs/ and
-- store.ts disagree on the costs of facts that are stored already, the model follows store.ts.
--
-- Bounds. The loops are recursions on the lists that they walk. The redirects of a fetch are counted
-- down from the program's four requests. The reader of the configuration file recurses on fuel, the
-- size of its lines and one more, in which a line counts for its text: a round takes a line off, or
-- puts back a shorter one. A run that used it up would be `unfinished`.
--
-- Not modelled: the worker's loops over the job queue and the scheduler; health, which asks SQLite for
-- its own checks; parsePropfind, which reads XML by regular expressions; the wiring of session.ts,
-- context.ts and routes.ts; the pages and the Python agent, which are other programs than the server's
-- core. The labels in the messages of catalog.ts are left out.
pub mod Prelude
pub mod Json
pub mod Yaml
pub mod Store
pub mod Prices
pub mod Transcripts
pub mod Analytics
pub mod Fetch
pub mod Throttle
pub mod Access
pub mod Webdav
pub mod Crypto
pub mod Settings
pub mod Sources
pub mod Ingest
pub mod Api
pub mod Worker
