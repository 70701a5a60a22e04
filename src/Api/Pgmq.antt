-- ===== src/Api/Pgmq.antt =====
-- api/src/queue/pgmq.ts and ensure.ts: the adapter over the functions of the pgmq extension, which are
-- parameters.
pub mod Refines
use frontdesk_intake.Api.Sqs.{dead_letter}
use frontdesk_intake.Prelude.{ℕ, String, Bool, List, [], ◌∷◌, map}
use Prim.Native.String.{◌++◌ as str_append}
use frontdesk_intake.Json.{Json}
use frontdesk_intake.Database.Tx.{Outcome, ok, err, thrown}
use frontdesk_intake.Api.Queue.{QueueMessage, Operations}

-- the columns of `pgmq.message_record` that the adapter reads
pub record MessageRecord : Type 0 where
  pub msg_id : String
  pub message : Json

-- Each call is one statement, which the database may refuse; a set-returning function gives its rows.
pub record Pgmq : Type 1 where
  pub State : Type 0
  pub create : String → State → Outcome (Unit {0}) × State
  pub send : String → Json → State → Outcome (List String) × State
  pub read : String → ℕ → ℕ → State → Outcome (List MessageRecord) × State
  pub delete : String → String → State → Outcome Bool × State
  pub set_vt : String → String → ℕ → State → Outcome (List MessageRecord) × State
  pub archive : String → String → State → Outcome Bool × State

abbrev pub to_message : MessageRecord → QueueMessage
to_message row = record { id = row.msg_id; body = row.message }

-- an answer whose rows the adapter drops
abbrev pub dropped : {A S : Type 0} → Outcome A × S → Outcome (Unit {0}) × S
dropped (ok a, q) = (ok tt, q)
dropped (err e, q) = (err e, q)

module _ (pgmq : Pgmq) (queue_name : String) where
  abbrev pub sent_row : Outcome (List String) × pgmq.State → Outcome String × pgmq.State
  sent_row (err e, q) = (err e, q)
  sent_row (ok [], q) =
      (err (thrown (str_append "pgmq.send('" (str_append queue_name "') returned no rows"))), q)
  sent_row (ok (id ∷ rest), q) = (ok id, q)

  abbrev pub messages :
      Outcome (List MessageRecord) × pgmq.State → Outcome (List QueueMessage) × pgmq.State
  messages (err e, q) = (err e, q)
  messages (ok rows, q) = (ok (map to_message rows), q)

  unfoldable pub postgres_send : Json → pgmq.State → Outcome String × pgmq.State
  postgres_send payload q = sent_row (pgmq.send queue_name payload q)

  unfoldable pub postgres_receive : ℕ → ℕ → pgmq.State → Outcome (List QueueMessage) × pgmq.State
  postgres_receive visibility_timeout qty q =
      messages (pgmq.read queue_name visibility_timeout qty q)

  unfoldable pub postgres_ack : String → pgmq.State → Outcome (Unit {0}) × pgmq.State
  postgres_ack id q = dropped (pgmq.delete queue_name id q)

  unfoldable pub postgres_nack : String → pgmq.State → Outcome (Unit {0}) × pgmq.State
  postgres_nack id q = dropped (pgmq.set_vt queue_name id 0 q)

  unfoldable pub postgres_dead_letter : String → pgmq.State → Outcome (Unit {0}) × pgmq.State
  postgres_dead_letter id q = dropped (pgmq.archive queue_name id q)

  -- the adapter as an implementation of the interface
  abbrev pub postgres_queue : Operations pgmq.State
  postgres_queue = record {
    send = postgres_send;
    receive = postgres_receive;
    ack = postgres_ack;
    nack = postgres_nack;
    dead_letter = postgres_dead_letter;
  }

  unfoldable pub ensure_queue : pgmq.State → Outcome (Unit {0}) × pgmq.State
  ensure_queue q = pgmq.create queue_name q
