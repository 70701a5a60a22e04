-- ===== src/Tests/ApiRuns.antt =====
-- Requests that come in at the small clinic's API.
use frontdesk_intake.Api.Intake.Ordered.{Ordered, post_request-Ordered}
use frontdesk_intake.Prelude.{
  String, true, false, none, some, List, [], ◌∷◌, ◌++◌, ◌≡◌, ◌≤◌, refl, is_empty, utf16_length,
  every_char, trim, trim_start, trim_end, is_space,
}
use frontdesk_intake.Json.{Json, null, str, obj, end, field, get_field}
use frontdesk_intake.Database.Enums.{DocumentStatus}
use frontdesk_intake.Database.Rows.{Database, Document}
use frontdesk_intake.Database.Tx.{ok, pure, ◌>>=◌}
use frontdesk_intake.Database.Statements.{insert_request, request_refusal, select_orgs}
use frontdesk_intake.Database.Client.{for_org, resolve_api_key}
use frontdesk_intake.Api.Problem.{problem}
use frontdesk_intake.Api.Logging.{
  value, sanitize_request_id, sanitize_request_id-usable, is_safe, max_request_id_length,
}
use frontdesk_intake.Api.Queue.{Queue, MessageSchema, assert_triage_message, issues_verdict}
use frontdesk_intake.Api.Intake.{
  RequestsRouteDeps, IncomingRequest, IntakeSupply, RequestBody, success, answered, created,
  refused, post_request, after_prefix, hash_api_key, get_org_by_slug, api_key_caller,
  turnstile_caller, verify_turnstile, insert_returning,
}
use frontdesk_intake.Api.Intake.Accepted.{Accepted, post_request-created}
use frontdesk_intake.Api.Intake.Refused.{Untouched, post_request-refused}
use frontdesk_intake.Api.SeedIngest.{
  enqueue_pending_ingest_messages, enqueue_pending_ingest_messages-eq, send_all, ingest_messages,
}
use frontdesk_intake.Api.IndexInfo.{index_info, index_info-private}
use frontdesk_intake.Api.Env.{
  RawEnv, Env, sqs, valid, load_env, create_queue, create_ingest_queue, Created, load_env-Created,
}
use frontdesk_intake.Tests.Fixture.{clinic, supply, legal}

-- a queue that takes every message
abbrev list_queue : Queue
list_queue = record { State = List Json; send = λ m q. (ok "id", q ++ m ∷ []) }

abbrev pub lenient : {second : String} → MessageSchema second
lenient = record { safe_parse = λ j. []; accepts = λ o i h k. refl }

abbrev toothache : RequestBody
toothache = record {
  requester_name = none;
  requester_email = none;
  subject = "Toothache";
  body = "It hurts.";
}

given_subject :
    (raw : Json) (b : RequestBody) → success toothache ≡ success b → is_empty b.subject ≡ false
given_subject raw b h = cc

given_body :
    (raw : Json) (b : RequestBody) → success toothache ≡ success b → is_empty b.body ≡ false
given_body raw b h = cc

abbrev deps : RequestsRouteDeps
deps = record {
  queue = list_queue;
  public_web_origin = "https://desk.test";
  body_schema = λ raw. success toothache;
  subject_given = given_subject;
  body_given = given_body;
  message_schema = lenient;
  sha256_hex = λ key. "hash";
  siteverify = λ token. answered (some true);
}

abbrev draws : IntakeSupply
draws = record { database = supply; tracking_token = "fresh" }

abbrev with_key : IncomingRequest
with_key = record { slug = "bright-smile"; authorization = some "Bearer secret"; raw_body = null }

abbrev with_challenge : IncomingRequest
with_challenge = record {
  slug = "nowhere";
  authorization = none;
  raw_body = obj (field "cf-turnstile-response" (str "token") end);
}

abbrev outcome_of : IncomingRequest → Database × List Json
outcome_of req = (post_request deps draws req (clinic, [])).1

with_key-created : post_request deps draws with_key (clinic, []) ≡ (
  created "fresh" "https://desk.test/t/fresh",
  ((outcome_of with_key).0, (outcome_of with_key).1),
)
unfolding post_request api_key_caller after_prefix hash_api_key get_org_by_slug resolve_api_key
    insert_returning for_org insert_request request_refusal select_orgs assert_triage_message
    issues_verdict get_field utf16_length trim trim_start trim_end is_space ◌>>=◌ pure
with_key-created = refl

post_request-created_example :
    Accepted deps draws with_key clinic (outcome_of with_key).0 [] (outcome_of with_key).1 "fresh"
post_request-created_example =
    post_request-created deps draws with_key clinic (outcome_of with_key).0 []
      (outcome_of with_key).1 "fresh" "https://desk.test/t/fresh" with_key-created

post_request-Ordered_example :
    Ordered deps draws clinic (outcome_of with_key).0 [] (outcome_of with_key).1
post_request-Ordered_example =
    post_request-Ordered deps draws with_key clinic (outcome_of with_key).0 []
      (outcome_of with_key).1 (created "fresh" "https://desk.test/t/fresh") with_key-created

with_challenge-refused : post_request deps draws with_challenge (clinic, []) ≡ (
  refused (problem 404 "Not Found" "no such org: nowhere"),
  ((outcome_of with_challenge).0, (outcome_of with_challenge).1),
)
unfolding post_request turnstile_caller verify_turnstile get_org_by_slug select_orgs get_field
with_challenge-refused = refl

post_request-refused_example :
    Untouched deps draws
      (problem 404 "Not Found" "no such org: nowhere")
      clinic
      (outcome_of with_challenge).0
      []
      (outcome_of with_challenge).1
post_request-refused_example =
    post_request-refused deps draws with_challenge clinic (outcome_of with_challenge).0 []
      (outcome_of with_challenge).1 (problem 404 "Not Found" "no such org: nowhere")
      with_challenge-refused

edge_id : sanitize_request_id (value " 7f-a:1 ") ≡ some "7f-a:1"
unfolding sanitize_request_id is_safe utf16_length every_char trim trim_start trim_end is_space
edge_id = refl

sanitize_request_id-usable_example :
    (is_empty "7f-a:1" ≡ false)
    × (utf16_length "7f-a:1" ≤ max_request_id_length)
    × (every_char is_safe "7f-a:1" ≡ true)
    × (sanitize_request_id (value "7f-a:1") ≡ some "7f-a:1")
sanitize_request_id-usable_example = sanitize_request_id-usable (value " 7f-a:1 ") "7f-a:1" edge_id

abbrev pending_guide : Document
pending_guide = record {
  id = "doc";
  org_id = "dental";
  title = "Hours";
  filename = "hours.md";
  mime = "text/markdown";
  sha256 = "s";
  text_content = none;
  status = DocumentStatus.pending;
  chunk_count = 0;
  error = none;
  created_at = 0;
}

abbrev pub documented : Database
documented = record clinic { documents = pending_guide ∷ [] }

enqueue_pending_ingest_messages-eq_example :
    enqueue_pending_ingest_messages list_queue lenient documented []
    ≡ send_all list_queue lenient
        (ingest_messages list_queue lenient documented.orgs documented)
        0
        []
enqueue_pending_ingest_messages-eq_example =
    enqueue_pending_ingest_messages-eq list_queue lenient documented [] refl

abbrev no_orgs : Database
no_orgs = record clinic { orgs = [] }

index_info-private_example : index_info "harbor" clinic ≡ index_info "harbor" no_orgs
index_info-private_example = index_info-private "harbor" clinic no_orgs legal refl refl refl

abbrev pub sqs_env : RawEnv
sqs_env = record {
  port = 3001;
  database_url = some "postgres://app";
  database_app_url = none;
  queue_provider = sqs;
  turnstile_secret_key = none;
  public_web_origin = "https://desk.test";
  aws_endpoint_url = none;
  aws_region = some "eu";
  sqs_queue_url = some "q";
  sqs_dlq_url = some "d";
  ingest_sqs_queue_url = some "iq";
  ingest_sqs_dlq_url = some "id";
}

abbrev loaded : Env
loaded = record { raw = sqs_env; database_url = "postgres://app" }

loads : load_env (valid sqs_env) ≡ ok loaded
unfolding load_env
loads = refl

load_env-Created_example : Created (create_queue loaded) × Created (create_ingest_queue loaded)
load_env-Created_example = load_env-Created (valid sqs_env) loaded loads
