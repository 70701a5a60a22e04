-- ===== src/Api/Sqs/Storage.antt =====
-- What the SQS service documents of its stored messages, for the commands that the adapter calls.
use frontdesk_intake.Api.Sqs.{or_none, SqsClient, SqsMessage, parse_message}
use frontdesk_intake.Api.Pgmq.Refines.{entry, has_id, row_of}
use frontdesk_intake.Database.Purge.Batch.{DistinctIds}
use frontdesk_intake.Api.Pgmq.{MessageRecord}
use frontdesk_intake.Api.Queue.{QueueMessage}
use frontdesk_intake.Database.Tx.{ok, err}
use frontdesk_intake.Prelude.{
  ℕ, String, false, Option, some, List, [], ◌∷◌, ◌++◌, ◌≡◌, ◌==◌, All, delete_where,
}
use frontdesk_intake.Json.{Json}

-- what the messages of a batch are for the adapter
unfoldable pub parsed_batch : List SqsMessage → List QueueMessage
parsed_batch [] = []
parsed_batch (m ∷ ms) =
    let rest = parsed_batch ms in elim (parse_message m) [ ok q ↦ q ∷ rest | err e ↦ rest ]

-- The messages stored behind a queue's address, and the message that a receipt handle names, as the
-- service documents them. A stored message has an identifier of its own; a receive or a change of
-- visibility stores nothing and removes nothing.
pub record SqsStorage (client : SqsClient) : Type 0 where
  pub stored : client.State → String → List MessageRecord
  pub names : client.State → String → Option String
  pub distinct :
      (q : client.State) (url : String)
      → DistinctIds (λ (r : MessageRecord). r.msg_id) (stored q url)
  pub send_law :
      (url : String) (body : Json) (q q' : client.State) (id : Option String)
      → client.send_message url body q ≡ (ok id, q')
      → (mid : String) × (stored q' url ≡ stored q url ++ entry mid body ∷ [])
        × ((other : String) → (other == url) ≡ false → stored q' other ≡ stored q other)
        × (names q' ≡ names q)
  pub receive_law :
      (url : String) (vt qty : ℕ) (q q' : client.State) (messages : Option (List SqsMessage))
      → client.receive_message url vt qty q ≡ (ok messages, q')
      → (stored q' ≡ stored q)
        × DistinctIds (λ (m : QueueMessage). m.id) (parsed_batch (or_none messages))
        × All
            (λ m.
              (mid : String) × (names q' m.id ≡ some mid)
              × (row_of mid (stored q' url) ≡ some (entry mid m.body)))
            (parsed_batch (or_none messages))
  pub visibility_law :
      (url handle : String) (vt : ℕ) (q q' : client.State)
      → client.change_message_visibility url handle vt q ≡ (ok tt, q')
      → stored q' ≡ stored q
  pub delete_law :
      (url handle mid : String) (q q' : client.State)
      → names q handle ≡ some mid
      → client.delete_message url handle q ≡ (ok tt, q')
      → (stored q' url ≡ delete_where (has_id mid) (stored q url))
        × ((other : String) → (other == url) ≡ false → stored q' other ≡ stored q other)
