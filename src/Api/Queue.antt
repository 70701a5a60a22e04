-- ===== src/Api/Queue.antt =====
-- api/src/queue/index.ts: the messages of the two queues, and the check of one before it is sent.
-- The schemas are zod's: what a schema answers about a value is a parameter.
use frontdesk_intake.Prelude.{
  ℕ, String, Bool, true, false, List, [], ◌∷◌, any, is_empty, ◌==◌, ◌≡◌, if◌then◌else◌,
}
use Prim.Native.String.{◌++◌ as str_append}
use frontdesk_intake.Json.{Json, str, obj, end, field}
use frontdesk_intake.Database.Tx.{Outcome, ok, err, thrown}

-- The part of the interface `Queue` that producers use; the adapter's own state is any type.
pub record Queue : Type 1 where
  pub State : Type 0
  pub send : Json → State → Outcome String × State

-- `QueueMessage<T>`
pub record QueueMessage : Type 0 where
  pub id : String
  pub body : Json

-- The interface `Queue<T>`: the five operations of an adapter on its state.
pub record Operations (State : Type 0) : Type 0 where
  pub send : Json → State → Outcome String × State
  pub receive : ℕ → ℕ → State → Outcome (List QueueMessage) × State
  pub ack : String → State → Outcome (Unit {0}) × State
  pub nack : String → State → Outcome (Unit {0}) × State
  pub dead_letter : String → State → Outcome (Unit {0}) × State

pub record Issue : Type 0 where
  pub code : String
  pub path : List String

-- `z.object({ orgId: z.string().min(1), <second>: z.string().min(1) }).strict()`: no issues is
-- success, which is what the library documents for two texts that are not empty.
pub record MessageSchema (second : String) : Type 0 where
  pub safe_parse : Json → List Issue
  pub accepts :
      (org_id id : String)
      → is_empty org_id ≡ false
      → is_empty id ≡ false
      → safe_parse (obj (field "orgId" (str org_id) (field second (str id) end))) ≡ []

abbrev touches : String → Issue → Bool
touches key issue = elim issue.path [ [] ↦ true | x ∷ xs ↦ x == key ]

abbrev refuse : String → Outcome (Unit {0})
refuse message = err (thrown message)

-- The message of the first complaint that applies; `name` is the message type's.
unfoldable pub issues_verdict : String → String → List Issue → Outcome (Unit {0})
issues_verdict name second [] = ok tt
issues_verdict name second (i ∷ is) =
    if any (λ x. x.code == "unrecognized_keys") (i ∷ is)
    then refuse
        (str_append name " has unrecognized properties - the queue has no RLS to enforce tenancy")
    else if any (touches "orgId") (i ∷ is)
    then refuse (str_append name ".orgId is required - the queue has no RLS to enforce tenancy")
    else if any (touches second) (i ∷ is)
    then refuse (str_append name (str_append "." (str_append second " is required")))
    else refuse (str_append name " is invalid")

unfoldable pub assert_triage_message : MessageSchema "requestId" → Json → Outcome (Unit {0})
unfolding issues_verdict
assert_triage_message schema value =
    issues_verdict "TriageMessage" "requestId" (schema.safe_parse value)

unfoldable pub assert_ingest_message : MessageSchema "documentId" → Json → Outcome (Unit {0})
unfolding issues_verdict
assert_ingest_message schema value =
    issues_verdict "IngestMessage" "documentId" (schema.safe_parse value)

unfoldable pub triage_message : String → String → Json
triage_message org_id request_id =
    obj (field "orgId" (str org_id) (field "requestId" (str request_id) end))

unfoldable pub ingest_message : String → String → Json
ingest_message org_id document_id =
    obj (field "orgId" (str org_id) (field "documentId" (str document_id) end))
