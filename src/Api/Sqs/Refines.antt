-- ===== src/Api/Sqs/Refines.antt =====
-- The SQS adapter keeps the contract of a queue.
use frontdesk_intake.Api.Sqs.Storage.{SqsStorage}
use frontdesk_intake.Api.Sqs.Answers.{
  cache_all-parsed, deleted_after-ok, evicted-ok, received-ok, sent-ok,
}
use frontdesk_intake.Api.Sqs.{
  or_none, min, Adapter, SqsClient, SqsQueueConfig, get_body, send, receive, ack, nack, dead_letter,
}
use frontdesk_intake.Api.Sqs.Receipts.{CachedIn, cache_all-CachedIn}
use frontdesk_intake.Api.Contract.{one, Contract}
use frontdesk_intake.Api.Pgmq.Refines.{
  count-bodies-append, count-bodies-delete_where, bodies, entry, row_of,
}
use frontdesk_intake.Database.Purge.Batch.{DistinctIds}
use frontdesk_intake.Api.Pgmq.{MessageRecord}
use frontdesk_intake.Api.Queue.{Operations, QueueMessage}
use frontdesk_intake.Database.Tx.{Outcome, ok}
use frontdesk_intake.Prelude.{
  eq_iff, subst, arith, ◌+◌, ℕ, String, Bool, false, some, List, [], ◌∷◌, ◌≡◌, ◌∙◌, ap, ◌==◌, All,
}
use frontdesk_intake.Json.{Json}
use frontdesk_intake.Database.Order.{count}

pub flip : (x y : String) → (x == y) ≡ false → (y == x) ≡ false
flip x y h = ground (arith, h, eq_iff x y, eq_iff y x)

module _ (client : SqsClient) (config : SqsQueueConfig) (storage : SqsStorage client)
    (apart : (config.dlq_url == config.queue_url) ≡ false) where
  -- the adapter as an implementation of the interface
  abbrev pub sqs_queue : Operations (Adapter client config)
  sqs_queue = record {
    send = send client config;
    receive = receive client config;
    ack = ack client config;
    nack = nack client config;
    dead_letter = dead_letter client config;
  }

  abbrev pub main_bodies : Adapter client config → List Json
  main_bodies a = bodies (storage.stored a.0 config.queue_url)

  abbrev pub dlq_bodies : Adapter client config → List Json
  dlq_bodies a = bodies (storage.stored a.0 config.dlq_url)

  -- the handle names a stored message of the main queue, whose body the adapter has cached
  abbrev pub SqsHolds : String → Json → Adapter client config → Type 0
  SqsHolds handle body a =
      (mid : String) × (storage.names a.0 handle ≡ some mid)
      × (row_of mid (storage.stored a.0 config.queue_url) ≡ some (entry mid body))
      × (get_body handle a.1 ≡ some body)

  pub same_main :
      (q q' : client.State) (p : Json → Bool) (url : String)
      → storage.stored q' url ≡ storage.stored q url
      → count p (bodies (storage.stored q' url)) ≡ count p (bodies (storage.stored q url))
  same_main q q' p url h = ap (λ (l : List MessageRecord). count p (bodies l)) h

  held_all :
      (out : List QueueMessage) (a : Adapter client config)
      → All
          (λ m.
            (mid : String) × (storage.names a.0 m.id ≡ some mid)
            × (row_of mid (storage.stored a.0 config.queue_url) ≡ some (entry mid m.body)))
          out
      → CachedIn a.1 out
      → All (λ m. SqsHolds m.id m.body a) out
  held_all [] a h k = tt
  held_all (m ∷ out) a ((mid, named, here), hs) (cached, ks) =
      ((mid, named, here, cached), held_all out a hs ks)

  send_keeps :
      (body : Json) (s t : Adapter client config) (id : String) (p : Json → Bool)
      → send client config body s ≡ (ok id, t)
      → (count p (main_bodies t) ≡ count p (main_bodies s) + one p body)
        × (count p (dlq_bodies t) ≡ count p (dlq_bodies s))
  unfolding send
  send_keeps body (q, cache) t id p h =
      let (o, sent) =
        sent-ok client config (client.send_message config.queue_url body q) cache id t h in
      let (mid, now, others, names) = storage.send_law config.queue_url body q t.0 o sent in
      (
        rw now (count-bodies-append p (storage.stored q config.queue_url) mid body),
        same_main q t.0 p config.dlq_url (others config.dlq_url apart),
      )

  receive_keeps :
      (vt qty : ℕ) (s t : Adapter client config) (ms : List QueueMessage) (p : Json → Bool)
      → receive client config vt qty s ≡ (ok ms, t)
      → (count p (main_bodies t) ≡ count p (main_bodies s))
        × (count p (dlq_bodies t) ≡ count p (dlq_bodies s))
        × All (λ m. SqsHolds m.id m.body t) ms
  unfolding receive
  receive_keeps vt qty (q, cache) t ms p h =
      let (messages, got, cached) =
        received-ok client config (client.receive_message config.queue_url vt (min qty 10) q) cache
          ms t h in
      let (same, different, held) =
        storage.receive_law config.queue_url vt (min qty 10) q t.0 messages got in
      let parsed' = cache_all-parsed (or_none messages) cache t.1 ms cached in
      let different' =
        subst (λ (l : List QueueMessage). DistinctIds (λ (m : QueueMessage). m.id) l) parsed'
          different in
      (
        same_main q t.0 p config.queue_url (ap (λ f. f config.queue_url) same),
        same_main q t.0 p config.dlq_url (ap (λ f. f config.dlq_url) same),
        held_all ms t
            (subst
              (λ (l : List QueueMessage).
                All
                  (λ m.
                    (mid : String) × (storage.names t.0 m.id ≡ some mid)
                    × (row_of mid (storage.stored t.0 config.queue_url) ≡ some (entry mid m.body)))
                  l)
              parsed' held)
            (cache_all-CachedIn (or_none messages) cache t.1 ms cached different'),
      )

  pub delete_keeps :
      (id mid : String) (body : Json) (q q' : client.State) (p : Json → Bool)
      → storage.names q id ≡ some mid
      → row_of mid (storage.stored q config.queue_url) ≡ some (entry mid body)
      → client.delete_message config.queue_url id q ≡ (ok tt, q')
      → (count p (bodies (storage.stored q' config.queue_url)) + one p body
          ≡ count p (bodies (storage.stored q config.queue_url)))
        × (count p (bodies (storage.stored q' config.dlq_url))
            ≡ count p (bodies (storage.stored q config.dlq_url)))
  delete_keeps id mid body q q' p named here h =
      let (now, others) = storage.delete_law config.queue_url id mid q q' named h in
      (
        rw now (
            count-bodies-delete_where p mid body (storage.stored q config.queue_url)
              (storage.distinct q config.queue_url) here),
        same_main q q' p config.dlq_url (others config.dlq_url apart),
      )

  ack_keeps :
      (id : String) (body : Json) (s t : Adapter client config) (p : Json → Bool)
      → SqsHolds id body s
      → ack client config id s ≡ (ok tt, t)
      → (count p (main_bodies t) + one p body ≡ count p (main_bodies s))
        × (count p (dlq_bodies t) ≡ count p (dlq_bodies s))
  unfolding ack
  ack_keeps id body (q, cache) t p (mid, named, here, cached) h =
      delete_keeps id mid body q t.0 p named here
        (evicted-ok client config id cache (client.delete_message config.queue_url id q) t h)

  nack_keeps :
      (id : String) (s t : Adapter client config) (p : Json → Bool)
      → nack client config id s ≡ (ok tt, t)
      → (count p (main_bodies t) ≡ count p (main_bodies s))
        × (count p (dlq_bodies t) ≡ count p (dlq_bodies s))
  unfolding nack
  nack_keeps id (q, cache) t p h =
      let changed : client.change_message_visibility config.queue_url id 0 q ≡ (ok tt, t.0) =
        ap (λ (y : Outcome (Unit {0}) × Adapter client config). (y.0, y.1.0)) h in
      let same = storage.visibility_law config.queue_url id 0 q t.0 changed in
      (
        same_main q t.0 p config.queue_url (ap (λ f. f config.queue_url) same),
        same_main q t.0 p config.dlq_url (ap (λ f. f config.dlq_url) same),
      )

  dead_letter_keeps :
      (id : String) (body : Json) (s t : Adapter client config) (p : Json → Bool)
      → SqsHolds id body s
      → dead_letter client config id s ≡ (ok tt, t)
      → (count p (main_bodies t) + one p body ≡ count p (main_bodies s))
        × (count p (dlq_bodies t) ≡ count p (dlq_bodies s) + one p body)
  unfolding dead_letter
  dead_letter_keeps id body (q, cache) t p (mid, named, here, cached) h =
      let (o, q1, copied, rest) =
        deleted_after-ok client config id cache (client.send_message config.dlq_url body q) t
          (rw (cached, dead_letter) at h) in
      let (copy, now, others, names) = storage.send_law config.dlq_url body q q1 o copied in
      let untouched = others config.queue_url (flip config.dlq_url config.queue_url apart) in
      let (gone, kept) =
        delete_keeps id mid body q1 t.0 p (ap (λ f. f id) names ∙ named) (rw untouched here) (
          evicted-ok client config id cache (client.delete_message config.queue_url id q1) t
            rest) in
      (
        gone ∙ same_main q q1 p config.queue_url untouched,
        kept ∙ rw now (count-bodies-append p (storage.stored q config.dlq_url) copy body),
      )

  pub sqs_queue-Contract : Contract sqs_queue main_bodies dlq_bodies SqsHolds
  sqs_queue-Contract = record {
    send_lem = send_keeps;
    receive_lem = receive_keeps;
    ack_lem = ack_keeps;
    nack_lem = λ id body s t p held h. nack_keeps id s t p h;
    dead_letter_lem = dead_letter_keeps;
  }
