-- ===== src/Lib.antt =====
-- frontdesk-intake: requests of the public come in by a form or an API, a worker drafts replies,
-- staff approve, edit or reject them, and the requester follows a tracking page.
--
-- The parts and their files:
-- Database: db/src. Rows and enums of db/src/schema (Rows, Enums); the statements that the
-- program issues, under row-level security, keys and cascades (Statements); forOrg as a
-- transaction that sets app.org_id and rolls back on an error, and the lookups of
-- db/drizzle/0003_resolvers.sql (Tx, Client); ORDER BY and LIMIT (Order, Limit); what a
-- transaction under an org cannot touch (Keeps, Isolation); the retention job of db/src/purge.ts
-- (Purge), the export of staff corrections of db/src/eval-export.ts (EvalExport), the wait for the
-- database of db/src/migrate.ts (Migrate), and the seed of db/src/seed.ts with the settings of
-- db/src/settings.ts (Seed, Settings).
-- Api: api/src. The intake handler of routes/requests.ts (Intake), the index facts of
-- routes/index-info.ts (IndexInfo), env.ts and queue/create.ts (Env), the messages of
-- queue/index.ts (Queue), the startup enqueue of queue/seed-ingest.ts (SeedIngest), the SQS
-- adapter of queue/sqs.ts with its cache of receipts (Sqs), the pgmq adapter of queue/pgmq.ts and
-- queue/ensure.ts (Pgmq), what a consumer may expect of either (Contract), the correlation id of
-- logging.ts (Logging) and problem.ts (Problem), and the startup of server.ts with the probes of
-- routes/healthz.ts and routes/readyz.ts (Server).
-- Web: web/src. The membership guard of lib/auth-guard.ts and proxy.ts (Guard), the Server
-- Actions of lib/staffActions.ts (Staff), the tracking page of lib/tracking.ts (Tracking), the
-- queues of lib/staffQueue.ts and lib/demoQueue.ts (StaffQueue, DemoQueue), the detail page of
-- lib/requestDetail.ts (RequestDetail), the public form's action of lib/actions.ts (PublicForm),
-- the loaders of lib/env.ts (Env), the components (Components) and the pages of src/app (Pages),
-- which render trees of tags, attributes and text (Html).
-- Prelude and Json: shared lemmas, text functions, and JSON values. Tests: concrete inputs.
--
-- How the state corresponds: a database is a record of its tables as lists of rows
-- (Rows.Database). A transaction body is a function of the value of app.org_id and the tables; an
-- error is a value (Tx.Outcome) that one of the program, a policy or a constraint raised.
-- Transactions run one after the other, in the order in which they commit; the interleavings that
-- are modelled are those of a staff decision that another one overtakes between its reads and its
-- writes (Staff.Race). Clock readings and drawn identifiers come with each call
-- (Tx.Supply). Dates are milliseconds, `numeric` columns texts, ids texts; text is compared by
-- code points. A citation that is no uuid, which the server would refuse, is here one that names no
-- chunk; the worker stores ids of chunks that it retrieved only.
--
-- Parameters: the database server's sort and its comparison of citext (Order.Postgres), zod's
-- schemas, SHA-256, Cloudflare's check and the queue (Intake.RequestsRouteDeps, Queue.Queue), the
-- SQS service (Sqs.SqsClient, with its stored messages in Sqs.Storage.SqsStorage and what a failed
-- command may leave in Sqs.Lossless.SqsFailures), the functions of pgmq (Pgmq.Pgmq, with their tables
-- in Pgmq.Refines.PgmqTables and which queues exist in Server.Provisioned.Provisioning), the form action's network, the
-- session that Auth.js finds, the files and drawn texts of the seed, the shape check of the
-- settings, the formatting of dates. Their laws state documented behaviour only.
--
-- Fuel: the wait for the database has one round more than it may attempt. The loop of the purge
-- runs on fuel too. Each round but the last deletes as many requests as
-- the batch size, so with a positive batch size one more round than there are requests is enough.
--
-- Not modelled: the Python worker, deployment, the sign-in library, names of style classes, and
-- the logging of each operation.
pub mod Prelude
pub mod Json
pub mod Database
pub mod Api
pub mod Tests
pub mod Web
