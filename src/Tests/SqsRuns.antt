-- ===== src/Tests/SqsRuns.antt =====
-- The SQS adapter before a service that answers the same each time.
use frontdesk_intake.Prelude.{some, List, [], ◌∷◌, ◌≡◌, refl}
use frontdesk_intake.Json.{Json, str}
use frontdesk_intake.Database.Tx.{ok, err, thrown}
use frontdesk_intake.Api.Queue.{QueueMessage}
use frontdesk_intake.Api.Sqs.{
  SqsClient, SqsQueueConfig, json, Adapter, receive, ack, dead_letter, no_body, cache_all,
}
use frontdesk_intake.Api.Sqs.Receipts.{ack-dead_letter}

-- the texts sent to the dead-letter queue are the service's state
abbrev service : SqsClient
service = record {
  State = List Json;
  send_message = λ url body q. (ok (some "m1"), body ∷ q);
  receive_message = λ url vt qty q. (
    ok (
        some (
          record { receipt_handle = some "h1"; body = some (json (str "one")) }
          ∷ record { receipt_handle = some "h2"; body = some (json (str "two")) }
          ∷ [])),
    q,
  );
  change_message_visibility = λ url id vt q. (ok tt, q);
  delete_message = λ url id q. (ok tt, q);
}

abbrev config : SqsQueueConfig
config = record { queue_url = "main"; dlq_url = "dead" }

abbrev batch : List QueueMessage
batch = record { id = "h1"; body = str "one" } ∷ record { id = "h2"; body = str "two" } ∷ []

abbrev after_receive : Adapter service config
after_receive = (receive service config 30 2 ([], [])).1

acked : ack service config "h1" after_receive ≡ (ok tt, (ack service config "h1" after_receive).1)
unfolding ack receive cache_all
acked = refl

ack-dead_letter_example :
    dead_letter service config "h1" (ack service config "h1" after_receive).1
    ≡ (err (thrown (no_body service config "h1")), (ack service config "h1" after_receive).1)
ack-dead_letter_example =
    ack-dead_letter service config "h1" after_receive (ack service config "h1" after_receive).1
      acked
