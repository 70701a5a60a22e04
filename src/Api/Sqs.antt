-- ===== src/Api/Sqs.antt =====
-- api/src/queue/sqs.ts: the SQS adapter, whose cache of received bodies dead-lettering needs. The
-- service behind the client is a parameter; the text of a message stands for its JSON value.
pub mod Receipts
pub mod Answers
pub mod Lossless
pub mod Refines
pub mod Storage
use frontdesk_intake.Prelude.{
  ℕ, String, Bool, true, false, not, Option, none, some, List, [], ◌∷◌, ◌==◌, ◌≡◌, is_empty, filter,
  min, if◌then◌else◌,
}
use Prim.Native.String.{◌++◌ as str_append}
use frontdesk_intake.Json.{Json}
use frontdesk_intake.Api.Queue.{QueueMessage}
use frontdesk_intake.Database.Tx.{Outcome, ok, err, Error, thrown}

-- a message's text: what `JSON.parse` makes of it
pub data BodyText : Type 0 where
  json : Json → BodyText
  malformed : BodyText

pub record SqsMessage : Type 0 where
  pub receipt_handle : Option String
  pub body : Option BodyText

-- The commands of the client, each of which the service may refuse.
pub record SqsClient : Type 1 where
  pub State : Type 0
  pub send_message : String → Json → State → Outcome (Option String) × State
  pub receive_message : String → ℕ → ℕ → State → Outcome (Option (List SqsMessage)) × State
  pub change_message_visibility : String → String → ℕ → State → Outcome (Unit {0}) × State
  pub delete_message : String → String → State → Outcome (Unit {0}) × State

pub record SqsQueueConfig : Type 0 where
  pub queue_url : String
  pub dlq_url : String

-- `Map<string, T>`: the newest entry of a key counts, and a key is deleted with all its entries
abbrev pub Received : Type 0
Received = List QueueMessage

unfoldable pub get_body : String → Received → Option Json
get_body id [] = none
get_body id (m ∷ ms) = if m.id == id then some m.body else get_body id ms

abbrev pub evict : String → Received → Received
evict id ms = filter (λ m. not (m.id == id)) ms

abbrev missing_parts : {A : Type 0} → Outcome A
missing_parts = err (thrown "SQS message missing ReceiptHandle or Body")

abbrev pub put :
    QueueMessage → Outcome (List QueueMessage) × Received → Outcome (List QueueMessage) × Received
put m (ok rest, cache) = (ok (m ∷ rest), cache)
put m (err e, cache) = (err e, cache)

-- a message with a handle, a body and a body that parses
abbrev parsed : Option String → Option BodyText → Outcome QueueMessage
parsed none body = missing_parts
parsed (some handle) none = missing_parts
parsed (some handle) (some malformed) =
    if is_empty handle then missing_parts else err (thrown "SyntaxError")
parsed (some handle) (some (json value)) =
    if is_empty handle then missing_parts else ok (record { id = handle; body = value })

abbrev pub parse_message : SqsMessage → Outcome QueueMessage
parse_message m = parsed m.receipt_handle m.body

abbrev pub cache_one :
    Outcome QueueMessage
    → Received
    → (QueueMessage → Outcome (List QueueMessage) × Received)
    → Outcome (List QueueMessage) × Received
cache_one (err e) cache rest = (err e, cache)
cache_one (ok q) cache rest = put q (rest q)

-- The callback of `messages.map`, over the messages in order; an error keeps what was cached.
unfoldable pub cache_all : List SqsMessage → Received → Outcome (List QueueMessage) × Received
cache_all [] cache = (ok [], cache)
cache_all (m ∷ ms) cache = cache_one (parse_message m) cache (λ q. cache_all ms (q ∷ cache))

-- `result.Messages ?? []`
abbrev pub or_none : Option (List SqsMessage) → List SqsMessage
or_none none = []
or_none (some ms) = ms

module _ (client : SqsClient) (config : SqsQueueConfig) where
  -- the service and the cache of this adapter
  abbrev pub Adapter : Type 0
  Adapter = client.State × Received

  abbrev pub sent_id : Outcome (Option String) × client.State → Received → Outcome String × Adapter
  sent_id (err e, q) cache = (err e, (q, cache))
  sent_id (ok none, q) cache = (err (thrown "SendMessageCommand returned no MessageId"), (q, cache))
  sent_id (ok (some id), q) cache = (
    if is_empty id then err (thrown "SendMessageCommand returned no MessageId") else ok id,
    (q, cache),
  )

  unfoldable pub send : Json → Adapter → Outcome String × Adapter
  send payload (q, cache) = sent_id (client.send_message config.queue_url payload q) cache

  abbrev pub all_cached :
      client.State → Outcome (List QueueMessage) × Received → Outcome (List QueueMessage) × Adapter
  all_cached q (r, cache) = (r, (q, cache))

  abbrev pub received :
      Outcome (Option (List SqsMessage)) × client.State
      → Received
      → Outcome (List QueueMessage) × Adapter
  received (err e, q) cache = (err e, (q, cache))
  received (ok messages, q) cache = all_cached q (cache_all (or_none messages) cache)

  -- at most 10 messages, the ceiling of the service
  unfoldable pub receive : ℕ → ℕ → Adapter → Outcome (List QueueMessage) × Adapter
  unfolding cache_all
  receive visibility_timeout qty (q, cache) =
      received (client.receive_message config.queue_url visibility_timeout (min qty 10) q) cache

  abbrev pub evicted :
      String → Received → Outcome (Unit {0}) × client.State → Outcome (Unit {0}) × Adapter
  evicted id cache (err e, q) = (err e, (q, cache))
  evicted id cache (ok done, q) = (ok done, (q, evict id cache))

  unfoldable pub ack : String → Adapter → Outcome (Unit {0}) × Adapter
  ack id (q, cache) = evicted id cache (client.delete_message config.queue_url id q)

  -- The body stays cached.
  unfoldable pub nack : String → Adapter → Outcome (Unit {0}) × Adapter
  nack id (q, cache) =
      let (r, q') = client.change_message_visibility config.queue_url id 0 q in (r, (q', cache))

  abbrev pub deleted_after :
      String → Received → Outcome (Option String) × client.State → Outcome (Unit {0}) × Adapter
  deleted_after id cache (err e, q) = (err e, (q, cache))
  deleted_after id cache (ok sent, q) =
      evicted id cache (client.delete_message config.queue_url id q)

  abbrev pub no_body : String → String
  no_body id =
      str_append "deadLetter("
        (str_append id "): no cached body - id must come from receive() on this adapter instance")

  -- The copy to the dead-letter queue comes first, then the deletion.
  unfoldable pub dead_letter : String → Adapter → Outcome (Unit {0}) × Adapter
  unfolding get_body
  dead_letter id (q, cache) = elim (get_body id cache) [
    | none ↦ (err (thrown (no_body id)), (q, cache))
    | some body ↦ deleted_after id cache (client.send_message config.dlq_url body q)
  ]
