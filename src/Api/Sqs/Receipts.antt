-- ===== src/Api/Sqs/Receipts.antt =====
-- Which receipt handles can be dead-lettered.
use frontdesk_intake.Prelude.{
  String, false, none, some, List, [], ◌∷◌, ◌==◌, ◌≡◌, refl, sym, ap, subst, ◌∙◌, All, arith,
  eq_iff, eq_refl,
}
use frontdesk_intake.Json.{Json}
use frontdesk_intake.Database.Tx.{Outcome, ok, err, thrown}
use frontdesk_intake.Database.Purge.Batch.{DistinctIds}
use frontdesk_intake.Api.Queue.{QueueMessage}
use frontdesk_intake.Api.Sqs.{
  SqsClient, SqsQueueConfig, SqsMessage, Received, get_body, evict, put, cache_all, cache_one,
  parse_message, Adapter, ack, dead_letter, deleted_after, no_body, evicted,
}

get_body-evict : (id : String) (cache : Received) → get_body id (evict id cache) ≡ none
unfolding get_body
get_body-evict id [] = refl
get_body-evict id (m ∷ ms) = ground (arith, get_body-evict id ms)

-- the entries of messages that a batch does not hold
abbrev Fresh : String → List QueueMessage → Type 0
Fresh id ms = All (λ m. (id == m.id) ≡ false) ms

abbrev pub CachedIn : Received → List QueueMessage → Type 0
CachedIn cache ms = All (λ m. get_body m.id cache ≡ some m.body) ms

put-ok :
    (q : QueueMessage) (r : Outcome (List QueueMessage) × Received) (out : List QueueMessage)
    (cache : Received)
    → put q r ≡ (ok out, cache)
    → (rest : List QueueMessage) × (r ≡ (ok rest, cache)) × (out ≡ q ∷ rest)
put-ok q (ok rest, c) out cache h = (rest, ground (arith, h), ground (arith, h))
put-ok q (err e, c) out cache h = absurd (cc (h))

cache_one-ok :
    (p : Outcome QueueMessage) (c : Received)
    (f : QueueMessage → Outcome (List QueueMessage) × Received) (out : List QueueMessage)
    (cache : Received)
    → cache_one p c f ≡ (ok out, cache)
    → (q : QueueMessage) × (rest : List QueueMessage) × (f q ≡ (ok rest, cache)) × (out ≡ q ∷ rest)
cache_one-ok (err e) c f out cache h = absurd (cc (h))
cache_one-ok (ok q) c f out cache h =
    let (rest, is_rest, is_out) = put-ok q (f q) out cache h in (q, rest, is_rest, is_out)

skip :
    (q : QueueMessage) (c : Received) (id : String)
    → (id == q.id) ≡ false
    → get_body id (q ∷ c) ≡ get_body id c
unfolding get_body
skip q c id h = ground (arith, h, eq_iff id q.id, eq_iff q.id id)

-- A batch adds its messages and leaves the entries of other handles.
cache_all-keeps :
    (ms : List SqsMessage) (c cache : Received) (out : List QueueMessage) (id : String)
    → cache_all ms c ≡ (ok out, cache)
    → Fresh id out
    → get_body id cache ≡ get_body id c
unfolding cache_all
cache_all-keeps [] c cache out id h fresh =
    ap (λ (x : Outcome (List QueueMessage) × Received). get_body id x.1) (sym h)
cache_all-keeps (m ∷ ms) c cache out id h fresh =
    let (q, rest, is_rest, is_out) =
      cache_one-ok (parse_message m) c (λ q. cache_all ms (q ∷ c)) out cache h in
    let (other, others) = subst (λ x. Fresh id x) is_out fresh in
    cache_all-keeps ms (q ∷ c) cache rest id is_rest others ∙ skip q c id other

top : (q : QueueMessage) (c : Received) → get_body q.id (q ∷ c) ≡ some q.body
unfolding get_body
top q c = rw (eq_refl q.id) refl

none_out :
    (out : List QueueMessage) (c cache : Received)
    → ◌≡◌ {A = Outcome (List QueueMessage) × Received} (ok [], c) (ok out, cache)
    → [] ≡ out
none_out out c cache h = ground (arith, h)

pub cache_all-CachedIn :
    (ms : List SqsMessage) (c cache : Received) (out : List QueueMessage)
    → cache_all ms c ≡ (ok out, cache)
    → DistinctIds (λ (q : QueueMessage). q.id) out
    → CachedIn cache out
unfolding cache_all
cache_all-CachedIn [] c cache out h distinct =
    subst (λ x. CachedIn cache x) (none_out out c cache h) tt
cache_all-CachedIn (m ∷ ms) c cache out h distinct =
    let (q, rest, is_rest, is_out) =
      cache_one-ok (parse_message m) c (λ q. cache_all ms (q ∷ c)) out cache h in
    let (fresh, distinct_rest) =
      subst (λ x. DistinctIds (λ (q : QueueMessage). q.id) x) is_out distinct in
    subst (λ x. CachedIn cache x) (sym is_out)
      (
        cache_all-keeps ms (q ∷ c) cache rest q.id is_rest fresh ∙ top q c,
        cache_all-CachedIn ms (q ∷ c) cache rest is_rest distinct_rest,
      )

module _ (client : SqsClient) (config : SqsQueueConfig) where
  dead_letter-cached :
      (id : String) (body : Json) (u : client.State) (cache : Received)
      → get_body id cache ≡ some body
      → dead_letter client config id (u, cache)
        ≡ deleted_after client config id cache (client.send_message config.dlq_url body u)
  unfolding dead_letter
  dead_letter-cached id body u cache h = rw (h, dead_letter)

  dead_letter-missing :
      (id : String) (u : client.State) (cache : Received)
      → get_body id cache ≡ none
      → dead_letter client config id (u, cache)
        ≡ (err (thrown (no_body client config id)), (u, cache))
  unfolding dead_letter
  dead_letter-missing id u cache h = rw (h, dead_letter)

  each :
      (cache : Received) (ms : List QueueMessage)
      → CachedIn cache ms
      → All
          (λ m.
            (u : client.State)
            → dead_letter client config m.id (u, cache)
              ≡ deleted_after client config m.id cache
                  (client.send_message config.dlq_url m.body u))
          ms
  each cache [] h = tt
  each cache (m ∷ ms) (here, h) =
      ((λ u. dead_letter-cached m.id m.body u cache here), each cache ms h)

  acked-missing :
      (id : String) (c : Received) (r : Outcome (Unit {0}) × client.State)
      (b : Adapter client config)
      → evicted client config id c r ≡ (ok tt, b)
      → get_body id b.1 ≡ none
  acked-missing id c (err e, u) b h = absurd (cc (h))
  acked-missing id c (ok done, u) b h =
      subst (λ x. get_body id x ≡ none)
        (ap (λ (x : Outcome (Unit {0}) × Adapter client config). x.1.1) h) (get_body-evict id c)

  -- After a handle was acknowledged it cannot be dead-lettered: the call is refused, and neither the
  -- service nor the cache change.
  pub ack-dead_letter :
      (id : String) (a b : Adapter client config)
      → ack client config id a ≡ (ok tt, b)
      → dead_letter client config id b ≡ (err (thrown (no_body client config id)), b)
  unfolding ack
  ack-dead_letter id (q, c) (u, cache) h =
      dead_letter-missing id u cache
        (acked-missing id c (client.delete_message config.queue_url id q) (u, cache) h)
