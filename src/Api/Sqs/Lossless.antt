-- ===== src/Api/Sqs/Lossless.antt =====
-- What the SQS adapter's deadLetter leaves when one of its two commands fails.
use frontdesk_intake.Api.Sqs.Refines.{
  flip, delete_keeps, same_main, sqs_queue, main_bodies, dlq_bodies, SqsHolds, sqs_queue-Contract,
}
use frontdesk_intake.Prelude.{
  arith, ◌+◌, ◌≤◌, ◌⊎◌, ℕ, String, Bool, false, Option, some, List, [], ◌∷◌, ◌++◌, ◌≡◌, ◌∙◌, refl,
  ap, subst, ◌==◌, delete_where, inl, inr,
}
use frontdesk_intake.Json.{Json}
use frontdesk_intake.Database.Order.{count}
use frontdesk_intake.Database.Tx.{Outcome, Error, ok, err}
use frontdesk_intake.Api.Contract.{one, Contract}
use frontdesk_intake.Api.Pgmq.Refines.{
  bodies, count-bodies-append, count-bodies-delete_where, entry, has_id, row_of,
}
use frontdesk_intake.Api.Queue.{Operations}
use frontdesk_intake.Api.Sqs.{
  Adapter, Received, SqsClient, SqsQueueConfig, evicted, deleted_after, dead_letter,
}
use frontdesk_intake.Api.Sqs.Storage.{SqsStorage}

-- A command that fails may have been carried out all the same, as when its answer is lost.
pub record SqsFailures (client : SqsClient) (storage : SqsStorage client) : Type 0 where
  pub send_error :
      (url : String) (body : Json) (q q' : client.State) (e : Error)
      → client.send_message url body q ≡ (err e, q')
      → ((storage.stored q' url ≡ storage.stored q url)
          ⊎ ((mid : String) × (storage.stored q' url
                ≡ storage.stored q url ++ entry mid body ∷ [])))
        × ((other : String)
            → (other == url) ≡ false
            → storage.stored q' other ≡ storage.stored q other)
  pub delete_error :
      (url handle mid : String) (q q' : client.State) (e : Error)
      → storage.names q handle ≡ some mid
      → client.delete_message url handle q ≡ (err e, q')
      → ((storage.stored q' url ≡ storage.stored q url)
          ⊎ (storage.stored q' url ≡ delete_where (has_id mid) (storage.stored q url)))
        × ((other : String)
            → (other == url) ≡ false
            → storage.stored q' other ≡ storage.stored q other)

-- The contract, and besides: whatever a dead-letter call answers, each body is still live or dead at
-- least as often as it was.
pub record Lossless {State : Type 0} (ops : Operations State) (live dead : State → List Json)
    (holds : String → Json → State → Type 0) : Type 0 where
  pub contract : Contract ops live dead holds
  pub never_lost :
      (id : String) (body : Json) (s t : State) (r : Outcome (Unit {0})) (p : Json → Bool)
      → holds id body s
      → ops.dead_letter id s ≡ (r, t)
      → count p (live s) + count p (dead s) ≤ count p (live t) + count p (dead t)

module _ (client : SqsClient) (config : SqsQueueConfig) (storage : SqsStorage client)
    (apart : (config.dlq_url == config.queue_url) ≡ false)
    (failures : SqsFailures client storage) where
  abbrev main_count : (Json → Bool) → client.State → ℕ
  main_count p q = count p (bodies (storage.stored q config.queue_url))

  abbrev dlq_count : (Json → Bool) → client.State → ℕ
  dlq_count p q = count p (bodies (storage.stored q config.dlq_url))

  failed_send :
      (body : Json) (q q' : client.State) (e : Error) (p : Json → Bool)
      → client.send_message config.dlq_url body q ≡ (err e, q')
      → (dlq_count p q ≤ dlq_count p q') × (main_count p q' ≡ main_count p q)
  failed_send body q q' e p h =
      let (target, others) = failures.send_error config.dlq_url body q q' e h in
      (
        elim target [
          | inl same ↦ rw same (omega arith)
          | inr (mid, added) ↦
              rw added
                (omega (arith, count-bodies-append p (storage.stored q config.dlq_url) mid body))
        ],
        same_main client config storage apart q q' p config.queue_url
            (others config.queue_url (flip config.dlq_url config.queue_url apart)),
      )

  deleted_count :
      (id mid : String) (body : Json) (q q' : client.State) (r : Outcome (Unit {0}))
      (p : Json → Bool)
      → storage.names q id ≡ some mid
      → row_of mid (storage.stored q config.queue_url) ≡ some (entry mid body)
      → client.delete_message config.queue_url id q ≡ (r, q')
      → (main_count p q ≤ main_count p q' + one p body) × (dlq_count p q' ≡ dlq_count p q)
  deleted_count id mid body q q' (ok done) p named here h =
      let (gone, kept) = delete_keeps client config storage apart id mid body q q' p named here h in
      (omega (arith, gone), kept)
  deleted_count id mid body q q' (err e) p named here h =
      let (target, others) = failures.delete_error config.queue_url id mid q q' e named h in
      (
        elim target [
          | inl same ↦ rw same (omega arith)
          | inr gone ↦ rw gone (
              omega (
                arith,
                count-bodies-delete_where p mid body (storage.stored q config.queue_url)
                    (storage.distinct q config.queue_url) here,
              ))
        ],
        same_main client config storage apart q q' p config.dlq_url (others config.dlq_url apart),
      )

  evicted_state :
      (id : String) (cache : Received) (x : Outcome (Unit {0}) × client.State)
      (r : Outcome (Unit {0})) (t : Adapter client config)
      → evicted client config id cache x ≡ (r, t)
      → x.1 ≡ t.0
  evicted_state id cache (err e, q) r t h =
      ap (λ (y : Outcome (Unit {0}) × Adapter client config). y.1.0) h
  evicted_state id cache (ok done, q) r t h =
      ap (λ (y : Outcome (Unit {0}) × Adapter client config). y.1.0) h

  module _ (id mid : String) (body : Json) (q : client.State) (cache : Received)
      (t : Adapter client config) (r : Outcome (Unit {0})) (p : Json → Bool)
      (named : storage.names q id ≡ some mid)
      (here : row_of mid (storage.stored q config.queue_url) ≡ some (entry mid body)) where
    after_send :
        (x : Outcome (Option String) × client.State)
        → client.send_message config.dlq_url body q ≡ x
        → deleted_after client config id cache x ≡ (r, t)
        → main_count p q + dlq_count p q ≤ main_count p t.0 + dlq_count p t.0
    after_send (err e, q1) sent h =
        let is_t : q1 ≡ t.0 = ap (λ (y : Outcome (Unit {0}) × Adapter client config). y.1.0) h in
        let (grown, same) = failed_send body q q1 e p sent in
        subst (λ u. main_count p q + dlq_count p q ≤ main_count p u + dlq_count p u) is_t
          (omega (arith, grown, same))
    after_send (ok o, q1) sent h =
        let (copy, now, others, names) = storage.send_law config.dlq_url body q q1 o sent in
        let untouched = others config.queue_url (flip config.dlq_url config.queue_url apart) in
        let copied : dlq_count p q1 ≡ dlq_count p q + one p body =
          rw now (count-bodies-append p (storage.stored q config.dlq_url) copy body) in
        let kept = same_main client config storage apart q q1 p config.queue_url untouched in
        let answer = client.delete_message config.queue_url id q1 in
        let (left, same) =
          deleted_count id mid body q1 answer.1 answer.0 p (ap (λ f. f id) names ∙ named)
            (rw untouched here) refl in
        subst (λ u. main_count p q + dlq_count p q ≤ main_count p u + dlq_count p u)
          (evicted_state id cache answer r t h) (omega (arith, copied, kept, left, same))

  never_lost :
      (id : String) (body : Json) (s t : Adapter client config) (r : Outcome (Unit {0}))
      (p : Json → Bool)
      → SqsHolds client config storage apart id body s
      → dead_letter client config id s ≡ (r, t)
      → main_count p s.0 + dlq_count p s.0 ≤ main_count p t.0 + dlq_count p t.0
  unfolding dead_letter
  never_lost id body (q, cache) t r p (mid, named, here, cached) h =
      after_send id mid body q cache t r p named here (client.send_message config.dlq_url body q)
        refl (rw (cached, dead_letter) at h)

  -- With the storage that SQS documents, and two different queues configured, the adapter keeps the
  -- contract of a queue. Besides, dead-lettering loses no message: whether it succeeds or one of its
  -- two commands fails, carried out or not, each body is live or dead at least as often as before.
  pub sqs_queue-Lossless :
      Lossless
        (sqs_queue client config storage apart)
        (main_bodies client config storage apart)
        (dlq_bodies client config storage apart)
        (SqsHolds client config storage apart)
  sqs_queue-Lossless = record {
    contract = sqs_queue-Contract client config storage apart;
    never_lost = never_lost;
  }
