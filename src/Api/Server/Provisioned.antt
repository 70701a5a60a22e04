-- ===== src/Api/Server/Provisioned.antt =====
-- What holds over pgmq once the process of api/src/server.ts listens.
use mathlib.Core.List.{append-nil, append_assoc}
use frontdesk_intake.Api.Env.{
  ChosenQueue, Env, ParsedEnv, create_ingest_queue, create_queue_for, load_env, pgmq,
}
use frontdesk_intake.Database.Rows.{Database}
use frontdesk_intake.Api.SeedIngest.{ids_given, ingest_messages, send_all}
use frontdesk_intake.Api.Pgmq.{postgres_send, Pgmq, MessageRecord, sent_row, ensure_queue}
use frontdesk_intake.Api.Server.{
  true, ℕ, queue_of, send_to, start_server, start_server-eq, Backend, on_extension, ensured,
}
use frontdesk_intake.Prelude.{
  ◌+◌, sym, subst, arith, String, List, [], ◌∷◌, ◌++◌, ◌≡◌, refl, ap, ◌∙◌,
}
use frontdesk_intake.Json.{Json}
use frontdesk_intake.Database.Tx.{Outcome, ok, err, and_then}
use frontdesk_intake.Api.Pgmq.Refines.{PgmqTables, bodies, entry}
use frontdesk_intake.Api.Sqs.{SqsClient}
use frontdesk_intake.Api.Queue.{MessageSchema}

-- Which queues exist, as pgmq documents it: creating a queue keeps the others and every message, and
-- sending removes no queue.
pub record Provisioning (extension : Pgmq) (tables : PgmqTables extension "frontdesk_ingest")
    : Type 1 where
  pub Exists : String → extension.State → Type 0
  pub create_law :
      (name : String) (q q' : extension.State)
      → extension.create name q ≡ (ok tt, q')
      → Exists name q'
        × ((other : String) → Exists other q → Exists other q')
        × (tables.queue q' ≡ tables.queue q)
  pub send_keeps :
      (name : String) (body : Json) (q : extension.State) (other : String)
      → Exists other q
      → Exists other (extension.send name body q).1

and_then-ok :
    {A B S : Type 0} (r : Outcome A × S) (f : A → S → Outcome B × S) (b : B) (s' : S)
    → and_then r f ≡ (ok b, s')
    → (a : A) × (s1 : S) × (r ≡ (ok a, s1)) × (f a s1 ≡ (ok b, s'))
and_then-ok (err e, s) f b s' h = absurd (cc (h))
and_then-ok (ok a, s) f b s' h = (a, s, refl, h)

bodies-append :
    (rows : List MessageRecord) (id : String) (body : Json)
    → bodies (rows ++ entry id body ∷ []) ≡ bodies rows ++ body ∷ []
bodies-append [] id body = refl
bodies-append (r ∷ rows) id body = ap (λ l. r.message ∷ l) (bodies-append rows id body)

module _ (extension : Pgmq) (client : SqsClient) (schema : MessageSchema "documentId")
    (tables : PgmqTables extension "frontdesk_ingest")
    (provisioning : Provisioning extension tables) where
  abbrev State : Type 0
  State = Backend extension client schema

  on_extension-ok :
      {A : Type 0} (f : extension.State → Outcome A × extension.State) (b b' : State) (x : A)
      → on_extension extension client schema f b ≡ (ok x, b')
      → f b.0 ≡ (ok x, b'.0)
  on_extension-ok f (q, a) b' x h = ap (λ (y : Outcome _ × State). (y.0, y.1.0)) h

  sent_row-ok :
      (r : Outcome (List String) × extension.State) (id : String) (q' : extension.State)
      → sent_row extension "frontdesk_ingest" r ≡ (ok id, q')
      → (rest : List String) × (r ≡ (ok (id ∷ rest), q'))
  sent_row-ok (err e, q) id q' h = absurd (cc (h))
  sent_row-ok (ok [], q) id q' h = absurd (cc (h))
  sent_row-ok (ok (x ∷ rest), q) id q' h = (rest, cc)

  ensured-ok :
      (b b' : State)
      → ensured extension client schema pgmq b ≡ (ok tt, b')
      → provisioning.Exists "frontdesk_triage" b'.0
        × provisioning.Exists "frontdesk_ingest" b'.0
        × (tables.queue b'.0 ≡ tables.queue b.0)
  unfolding ensured ensure_queue
  ensured-ok b b' h =
      let (u, b1, first, second) =
        and_then-ok
          (on_extension extension client schema (ensure_queue extension "frontdesk_triage") b)
          (λ done b'.
            on_extension extension client schema (ensure_queue extension "frontdesk_ingest") b')
          tt b' h in
      let (triage, k, same) =
        provisioning.create_law "frontdesk_triage" b.0 b1.0
          (on_extension-ok (extension.create "frontdesk_triage") b b1 tt first) in
      let (ingest, keeps, unchanged) =
        provisioning.create_law "frontdesk_ingest" b1.0 b'.0
          (on_extension-ok (extension.create "frontdesk_ingest") b1 b' tt second) in
      (keeps "frontdesk_triage" triage, ingest, unchanged ∙ same)

  abbrev ingest_queue : ChosenQueue
  ingest_queue = ChosenQueue.postgres_queue "frontdesk_ingest"

  send_to-ok :
      (body : Json) (b b' : State) (id : String)
      → send_to extension client schema ingest_queue body b ≡ (ok id, b')
      → (bodies (tables.queue b'.0) ≡ bodies (tables.queue b.0) ++ body ∷ [])
        × ((other : String) → provisioning.Exists other b.0 → provisioning.Exists other b'.0)
  unfolding send_to postgres_send
  send_to-ok body b b' id h =
      let posted = on_extension-ok (postgres_send extension "frontdesk_ingest" body) b b' id h in
      let (rest, answered) =
        sent_row-ok (extension.send "frontdesk_ingest" body b.0) id b'.0 posted in
      let (grown, archived) = tables.send_law body b.0 b'.0 id rest answered in
      (
        ap bodies grown ∙ bodies-append (tables.queue b.0) id body,
        λ other there.
            subst (λ q. provisioning.Exists other q)
              (ap (λ (y : Outcome (List String) × extension.State). y.1) answered)
              (provisioning.send_keeps "frontdesk_ingest" body b.0 other there),
      )

  send_all-ok :
      (ms : List Json) (n k : ℕ) (b b' : State)
      → send_all (queue_of extension client schema ingest_queue) schema ms n b ≡ (ok k, b')
      → (bodies (tables.queue b'.0) ≡ bodies (tables.queue b.0) ++ ms)
        × ((other : String) → provisioning.Exists other b.0 → provisioning.Exists other b'.0)
  send_all-ok [] n k b b' h =
      let same : b ≡ b' = ap (λ (y : Outcome ℕ × State). y.1) h in
      (
        ap (λ (u : State). bodies (tables.queue u.0)) (sym same)
            ∙ sym (append-nil (bodies (tables.queue b.0))),
        λ other there. subst (λ (u : State). provisioning.Exists other u.0) same there,
      )
  send_all-ok (m ∷ ms) n k b b' h =
      let (id, b1, first, rest) =
        and_then-ok (send_to extension client schema ingest_queue m b)
          (λ id b1. send_all (queue_of extension client schema ingest_queue) schema ms (n + 1) b1) k
          b' h in
      let (one_more, keeps) = send_to-ok m b b1 id first in
      let (others, keep_on) = send_all-ok ms (n + 1) k b1 b' rest in
      (
        others ∙ ap (λ l. l ++ ms) one_more ∙ append_assoc (bodies (tables.queue b.0)) (m ∷ []) ms,
        λ other there. keep_on other (keeps other there),
      )

  over_pgmq :
      (env : Env) (ingest : ChosenQueue)
      → env.raw.queue_provider ≡ pgmq
      → create_ingest_queue env ≡ ok ingest
      → ingest ≡ ingest_queue
  unfolding create_ingest_queue create_queue_for
  over_pgmq env ingest h k = cc (rw h at k)

  steps_listen :
      (env : Env) (ms : List Json) (port : ℕ) (b b' : State)
      → and_then (ensured extension client schema pgmq b) (λ done b1.
        and_then
          (send_all (queue_of extension client schema ingest_queue) schema ms 0 b1)
          (λ enqueued b2. (ok env.raw.port, b2)))
        ≡ (ok port, b')
      → (port ≡ env.raw.port)
        × provisioning.Exists "frontdesk_triage" b'.0
        × provisioning.Exists "frontdesk_ingest" b'.0
        × (bodies (tables.queue b'.0) ≡ bodies (tables.queue b.0) ++ ms)
  steps_listen env ms port b b' h =
      let (done, b1, provided, sending) =
        and_then-ok (ensured extension client schema pgmq b)
          (λ done b1.
            and_then (send_all (queue_of extension client schema ingest_queue) schema ms 0 b1)
              (λ enqueued b2. (ok env.raw.port, b2)))
          port b' h in
      let (count, b2, sent, listening) =
        and_then-ok (send_all (queue_of extension client schema ingest_queue) schema ms 0 b1)
          (λ enqueued b2. (ok env.raw.port, b2)) port b' sending in
      let (triage, ingest, same) = ensured-ok b b1 provided in
      let (grown, keeps) = send_all-ok ms 0 count b1 b2 sent in
      let is_b : b2 ≡ b' = ap (λ (y : Outcome ℕ × State). y.1) listening in
      (
        ground (arith, listening),
        subst (λ (u : State). provisioning.Exists "frontdesk_triage" u.0) is_b
            (keeps "frontdesk_triage" triage),
        subst (λ (u : State). provisioning.Exists "frontdesk_ingest" u.0) is_b
            (keeps "frontdesk_ingest" ingest),
        subst (λ (u : State). bodies (tables.queue u.0) ≡ bodies (tables.queue b.0) ++ ms) is_b
            (grown ∙ ap (λ l. bodies l ++ ms) same),
      )

  -- A process over pgmq that listens, on its configured port, has both queues there, and its ingest
  -- queue has gained exactly one message for each pending document of each org, in the order of the orgs
  -- and then of the documents. The environment was loaded, and no org or document has an empty id.
  pub start_server-provisioned :
      (parsed : ParsedEnv) (env : Env) (s : Database) (b b' : Backend extension client schema)
      (port : ℕ)
      → load_env parsed ≡ ok env
      → env.raw.queue_provider ≡ pgmq
      → ids_given (queue_of extension client schema (ChosenQueue.postgres_queue "")) schema s ≡ true
      → start_server extension client schema parsed s b ≡ (ok port, b')
      → (port ≡ env.raw.port)
        × provisioning.Exists "frontdesk_triage" b'.0
        × provisioning.Exists "frontdesk_ingest" b'.0
        × (bodies (tables.queue b'.0)
            ≡ bodies (tables.queue b.0)
              ++ ingest_messages
                  (queue_of extension client schema (ChosenQueue.postgres_queue ""))
                  schema
                  s.orgs
                  s)
  start_server-provisioned parsed env s b b' port loaded is_pgmq ids h =
      let (ingest, chosen, steps) =
        start_server-eq extension client schema parsed env s b loaded ids in
      let is_ingest = over_pgmq env ingest is_pgmq chosen in
      steps_listen env
        (ingest_messages (queue_of extension client schema (ChosenQueue.postgres_queue "")) schema
          s.orgs s)
        port b b' (rw is_pgmq at (rw is_ingest at (sym steps ∙ h)))
