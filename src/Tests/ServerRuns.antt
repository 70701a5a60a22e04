-- ===== src/Tests/ServerRuns.antt =====
-- The startup over a pgmq with room for one message, and an SQS that stores nothing.
use frontdesk_intake.Api.Queue.{assert_ingest_message}
use frontdesk_intake.Api.SeedIngest.{enqueue_pending_ingest_messages, ingest_messages}
use frontdesk_intake.Api.Pgmq.{ensure_queue, postgres_send}
use frontdesk_intake.Database.Client.{for_org}
use frontdesk_intake.Database.Statements.{select_documents, select_orgs}
use frontdesk_intake.Api.Server.{send_to, ensured, queue_of, start_server, Backend}
use frontdesk_intake.Database.Tx.{Outcome, ok}
use frontdesk_intake.Api.Server.Provisioned.{Provisioning, start_server-provisioned}
use frontdesk_intake.Prelude.{
  Bool, ℕ, String, arith, eq_refl, any, ◌==◌, ap, subst, Option-cases, inl, inr, true, none, some,
  List, [], ◌∷◌, ◌≡◌, refl,
}
use frontdesk_intake.Api.Pgmq.Refines.{bodies}
use frontdesk_intake.Json.{Json}
use frontdesk_intake.Api.Env.{Env, RawEnv, ChosenQueue, valid, load_env, pgmq}
use frontdesk_intake.Tests.QueueRuns.{Slot, slot_rows, send_slot, slot_pgmq, slot_tables}
use frontdesk_intake.Api.Sqs.{SqsClient}
use frontdesk_intake.Tests.ApiRuns.{lenient, documented, sqs_env}

abbrev no_sqs : SqsClient
no_sqs = record {
  State = Unit {0};
  send_message = λ url body q. (ok (some "m"), q);
  receive_message = λ url vt qty q. (ok none, q);
  change_message_visibility = λ url handle vt q. (ok tt, q);
  delete_message = λ url handle q. (ok tt, q);
}

abbrev pgmq_env : RawEnv
pgmq_env = record sqs_env { queue_provider = pgmq }

abbrev loaded : Env
loaded = record { raw = pgmq_env; database_url = "postgres://app" }

loads : load_env (valid pgmq_env) ≡ ok loaded
unfolding load_env
loads = refl

abbrev has_name : String → List String → Bool
has_name name created = any (λ other. other == name) created

abbrev Exists : String → Slot → Type 0
Exists name q = has_name name q.created ≡ true

create_slot-law :
    (name : String) (q q' : Slot)
    → ◌≡◌ {A = Outcome (Unit {0}) × Slot}
        (ok tt, record q { created = name ∷ q.created })
        (ok tt, q')
    → Exists name q'
      × ((other : String) → Exists other q → Exists other q')
      × (slot_rows q'.body ≡ slot_rows q.body)
create_slot-law name q q' h =
    subst
      (λ (u : Slot).
        Exists name u
        × ((other : String) → Exists other q → Exists other u)
        × (slot_rows u.body ≡ slot_rows q.body))
      (ap (λ (x : Outcome (Unit {0}) × Slot). x.1) h)
      (ground (arith, eq_refl name), λ other there. ground (arith, there), refl)

send_slot-created :
    (name : String) (body : Json) (q : Slot) (other : String)
    → Exists other q
    → Exists other (send_slot body q).1
send_slot-created name body q other there = elim (Option-cases q.body) [
  | inl room ↦ rw room there
  | inr (b, full) ↦ rw full there
]

provisioning : Provisioning slot_pgmq (slot_tables "frontdesk_ingest")
provisioning = record {
  Exists = Exists;
  create_law = create_slot-law;
  send_keeps = send_slot-created;
}

abbrev fresh : Backend slot_pgmq no_sqs lenient
fresh = (record { created = []; body = none; archive = [] }, (tt, []))

abbrev started : Outcome ℕ × Backend slot_pgmq no_sqs lenient
started = start_server slot_pgmq no_sqs lenient (valid pgmq_env) documented fresh

starts : started ≡ (ok 3001, started.1)
unfolding start_server load_env ensured ensure_queue enqueue_pending_ingest_messages select_orgs
    for_org select_documents assert_ingest_message send_to postgres_send
starts = refl

start_server-provisioned_example :
    (◌≡◌ {A = ℕ} 3001 3001)
    × provisioning.Exists "frontdesk_triage" started.1.0
    × provisioning.Exists "frontdesk_ingest" started.1.0
    × (bodies (slot_rows started.1.0.body)
        ≡ ingest_messages
            (queue_of slot_pgmq no_sqs lenient (ChosenQueue.postgres_queue ""))
            lenient
            documented.orgs
            documented)
start_server-provisioned_example =
    start_server-provisioned slot_pgmq no_sqs lenient (slot_tables "frontdesk_ingest") provisioning
      (valid pgmq_env) loaded documented fresh started.1 3001 loads refl refl starts
