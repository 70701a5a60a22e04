-- ===== src/Api/Server.antt =====
-- api/src/server.ts, routes/healthz.ts and routes/readyz.ts: the startup of the process, up to the
-- port that it listens on, and the two probes. The queue services are parameters.
pub mod Provisioned
use frontdesk_intake.Api.SeedIngest.{
  enqueue_pending_ingest_messages, enqueue_pending_ingest_messages-eq, ids_given, ingest_messages,
  send_all,
}
use frontdesk_intake.Api.Problem.{problem, Problem}
use frontdesk_intake.Prelude.{ℕ, String, true, ◌≡◌}
use frontdesk_intake.Database.Rows.{Database}
use frontdesk_intake.Database.Tx.{Outcome, ok, err, and_then}
use frontdesk_intake.Api.Env.{
  Env, ParsedEnv, QueueProvider, pgmq, sqs, ChosenQueue, load_env, create_queue,
  create_ingest_queue, load_env-Created,
}
use frontdesk_intake.Api.Pgmq.{Pgmq, postgres_send, ensure_queue}
use frontdesk_intake.Api.Sqs.{SqsClient, Received, send}
use frontdesk_intake.Api.Queue.{Queue, MessageSchema}
use frontdesk_intake.Json.{Json}

pub data Probe : Type 0 where
  ready : Probe
  not_ready : Problem → Probe

abbrev pub healthz : Probe
healthz = ready

-- `select 1` has answered or failed
unfoldable pub readyz : {A : Type 0} → Outcome A → Probe
unfolding problem
readyz (ok row) = ready
readyz (err e) = not_ready (problem 503 "Not Ready" "database check failed")

module _ (extension : Pgmq) (client : SqsClient) (schema : MessageSchema "documentId") where
  -- the storage of both providers, and the receipts of the SQS adapter
  abbrev pub Backend : Type 0
  Backend = extension.State × (client.State × Received)

  abbrev pub on_extension :
      {A : Type 0} → (extension.State → Outcome A × extension.State) → Backend → Outcome A × Backend
  on_extension f (q, a) = let (r, q') = f q in (r, (q', a))

  abbrev pub on_sqs :
      {A : Type 0}
      → (client.State × Received → Outcome A × (client.State × Received))
      → Backend
      → Outcome A × Backend
  on_sqs f (q, a) = let (r, a') = f a in (r, (q, a'))

  unfoldable pub send_to : ChosenQueue → Json → Backend → Outcome String × Backend
  send_to (ChosenQueue.postgres_queue name) m b = on_extension (postgres_send extension name m) b
  send_to (ChosenQueue.sqs_queue url dlq region endpoint) m b =
      on_sqs (send client (record { queue_url = url; dlq_url = dlq }) m) b

  abbrev pub queue_of : ChosenQueue → Queue
  queue_of chosen = record { State = Backend; send = send_to chosen }

  -- pgmq only: both queues are provisioned
  unfoldable pub ensured : QueueProvider → Backend → Outcome (Unit {0}) × Backend
  ensured sqs b = (ok tt, b)
  ensured pgmq b =
      and_then (on_extension (ensure_queue extension "frontdesk_triage") b)
        (λ done b'. on_extension (ensure_queue extension "frontdesk_ingest") b')

  -- the port that the process listens on
  unfoldable pub main : Env → ChosenQueue → Database → Backend → Outcome ℕ × Backend
  main env ingest_queue s b = and_then (ensured env.raw.queue_provider b) (λ done b1.
      and_then (enqueue_pending_ingest_messages (queue_of ingest_queue) schema s b1)
        (λ enqueued b2. (ok env.raw.port, b2)))

  abbrev with_ingest : Env → Outcome ChosenQueue → Database → Backend → Outcome ℕ × Backend
  unfolding main
  with_ingest env (err e) s b = (err e, b)
  with_ingest env (ok ingest_queue) s b = main env ingest_queue s b

  abbrev with_queues : Env → Outcome ChosenQueue → Database → Backend → Outcome ℕ × Backend
  unfolding main create_ingest_queue
  with_queues env (err e) s b = (err e, b)
  with_queues env (ok queue) s b = with_ingest env (create_ingest_queue env) s b

  abbrev with_env : Outcome Env → Database → Backend → Outcome ℕ × Backend
  unfolding main create_queue create_ingest_queue
  with_env (err e) s b = (err e, b)
  with_env (ok env) s b = with_queues env (create_queue env) s b

  -- the module from its first statement on
  unfoldable pub start_server : ParsedEnv → Database → Backend → Outcome ℕ × Backend
  unfolding main load_env create_queue create_ingest_queue
  start_server parsed s b = with_env (load_env parsed) s b

  -- The startup with a loaded environment, step by step.
  pub start_server-eq :
      (parsed : ParsedEnv) (env : Env) (s : Database) (b : Backend)
      → load_env parsed ≡ ok env
      → ids_given (queue_of (ChosenQueue.postgres_queue "")) schema s ≡ true
      → (ingest : ChosenQueue) × (create_ingest_queue env ≡ ok ingest)
        × (start_server parsed s b
            ≡ and_then (ensured env.raw.queue_provider b) (λ done b1.
              and_then
                (send_all
                  (queue_of ingest)
                  schema
                  (ingest_messages (queue_of ingest) schema s.orgs s)
                  0
                  b1)
                (λ enqueued b2. (ok env.raw.port, b2))))
  unfolding start_server main
  start_server-eq parsed env s b loaded ids =
      let ((queue, made), (ingest, chosen)) = load_env-Created parsed env loaded in
      (
        ingest,
        chosen,
        rw loaded (
            rw made (
              rw chosen (λ i. and_then (ensured env.raw.queue_provider b) (λ done b1.
                and_then (enqueue_pending_ingest_messages-eq (queue_of ingest) schema s b1 ids i)
                  (λ enqueued b2. (ok env.raw.port, b2)))))),
      )
