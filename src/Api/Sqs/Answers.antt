-- ===== src/Api/Sqs/Answers.antt =====
-- What a successful answer of the SQS adapter tells of the service's answers.
use frontdesk_intake.Api.Sqs.{
  or_none, evicted, received, deleted_after, sent_id, put, Adapter, Received, SqsClient, SqsMessage,
  SqsQueueConfig, cache_all, parse_message,
}
use frontdesk_intake.Api.Sqs.Storage.{parsed_batch}
use frontdesk_intake.Api.Queue.{QueueMessage}
use frontdesk_intake.Database.Tx.{Error, Outcome, ok, err}
use frontdesk_intake.Prelude.{
  ◌⊎◌, String, Option, none, some, List, [], ◌∷◌, ◌≡◌, ◌∙◌, refl, ap, inl, inr,
}

Outcome-cases : {A : Type 0} (r : Outcome A) → ((a : A) × (r ≡ ok a)) ⊎ ((e : Error) × (r ≡ err e))
Outcome-cases (ok a) = inl (a, refl)
Outcome-cases (err e) = inr (e, refl)

put-parsed :
    (q : QueueMessage) (r : Outcome (List QueueMessage) × Received) (out : List QueueMessage)
    (cache : Received)
    → put q r ≡ (ok out, cache)
    → (rest : List QueueMessage) × (r ≡ (ok rest, cache)) × (q ∷ rest ≡ out)
put-parsed q (ok rest, c) out cache h = (rest, cc, cc)
put-parsed q (err e, c) out cache h = cc

-- A batch that the adapter takes is returned as it was parsed.
pub cache_all-parsed :
    (ms : List SqsMessage) (c cache : Received) (out : List QueueMessage)
    → cache_all ms c ≡ (ok out, cache)
    → parsed_batch ms ≡ out
unfolding cache_all parsed_batch
cache_all-parsed [] c cache out h = cc
cache_all-parsed (m ∷ ms) c cache out h = elim (Outcome-cases (parse_message m)) [
  | inl (q, good) ↦
      let (rest, more, is_out) = put-parsed q (cache_all ms (q ∷ c)) out cache (rw good at h) in
      rw (good, parsed_batch)
        (ap (λ l. q ∷ l) (cache_all-parsed ms (q ∷ c) cache rest more) ∙ is_out)
  | inr (e, bad) ↦ absurd (cc (rw bad at h))
]

module _ (client : SqsClient) (config : SqsQueueConfig) where
  pub sent-ok :
      (r : Outcome (Option String) × client.State) (cache : Received) (id : String)
      (t : Adapter client config)
      → sent_id client config r cache ≡ (ok id, t)
      → (o : Option String) × (r ≡ (ok o, t.0))
  sent-ok (err e, q) cache id t h = cc
  sent-ok (ok none, q) cache id t h = cc
  sent-ok (ok (some x), q) cache id t h =
      (some x, ap (λ (y : Outcome String × Adapter client config). (ok (some x), y.1.0)) h)

  pub received-ok :
      (r : Outcome (Option (List SqsMessage)) × client.State) (cache : Received)
      (ms : List QueueMessage) (t : Adapter client config)
      → received client config r cache ≡ (ok ms, t)
      → (messages : Option (List SqsMessage)) × (r ≡ (ok messages, t.0))
        × (cache_all (or_none messages) cache ≡ (ok ms, t.1))
  received-ok (err e, q) cache ms t h = cc
  received-ok (ok none, q) cache ms t h = (none, cc, cc)
  received-ok (ok (some l), q) cache ms t h = (
    some l,
    ap (λ (y : Outcome (List QueueMessage) × Adapter client config). (ok (some l), y.1.0)) h,
    ap (λ (y : Outcome (List QueueMessage) × Adapter client config). (y.0, y.1.1)) h,
  )

  pub evicted-ok :
      (id : String) (cache : Received) (r : Outcome (Unit {0}) × client.State)
      (t : Adapter client config)
      → evicted client config id cache r ≡ (ok tt, t)
      → r ≡ (ok tt, t.0)
  evicted-ok id cache (err e, q) t h = cc
  evicted-ok id cache (ok done, q) t h =
      ap (λ (y : Outcome (Unit {0}) × Adapter client config). (ok tt, y.1.0)) h

  pub deleted_after-ok :
      (id : String) (cache : Received) (r : Outcome (Option String) × client.State)
      (t : Adapter client config)
      → deleted_after client config id cache r ≡ (ok tt, t)
      → (o : Option String) × (q : client.State) × (r ≡ (ok o, q))
        × (evicted client config id cache (client.delete_message config.queue_url id q)
            ≡ (ok tt, t))
  deleted_after-ok id cache (err e, q) t h = cc
  deleted_after-ok id cache (ok o, q) t h = (o, q, refl, h)
