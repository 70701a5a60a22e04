-- ===== src/Tests/SqsStorage.antt =====
-- An SQS whose two queues, "main" and "dead", have room for one message each.
use frontdesk_intake.Api.Sqs.Lossless.{Lossless, SqsFailures, sqs_queue-Lossless}
use frontdesk_intake.Database.Tx.{Error, Outcome, ok, err, constraint}
use frontdesk_intake.Api.Sqs.{SqsQueueConfig, SqsClient, SqsMessage, json, or_none}
use frontdesk_intake.Api.Sqs.Refines.{dlq_bodies, main_bodies, SqsHolds, sqs_queue}
use frontdesk_intake.Api.Sqs.Storage.{SqsStorage, parsed_batch}
use frontdesk_intake.Database.Purge.Batch.{DistinctIds}
use frontdesk_intake.Api.Pgmq.{MessageRecord}
use frontdesk_intake.Api.Pgmq.Refines.{entry, has_id, row_of}
use frontdesk_intake.Prelude.{
  ◌⊎◌, sym, String, false, Option, none, some, List, [], ◌∷◌, ◌++◌, ◌≡◌, refl, ap, subst, ◌==◌,
  eq_iff, All, delete_where, if◌then◌else◌, arith, Bool-cases, inl, inr,
}
use frontdesk_intake.Json.{Json}
use frontdesk_intake.Api.Queue.{QueueMessage}

record Slots : Type 0 where
  pub main : Option Json
  pub dead : Option Json

abbrev slot_rows : Option Json → List MessageRecord
slot_rows none = []
slot_rows (some b) = entry "m" b ∷ []

abbrev stored : Slots → String → List MessageRecord
stored q url =
    if url == "main" then slot_rows q.main else if url == "dead" then slot_rows q.dead else []

abbrev send_slots : String → Json → Slots → Outcome (Option String) × Slots
send_slots url body q =
    if url == "main"
    then elim q.main [
      | none ↦ (ok (some "m"), record q { main = some body })
      | some b ↦ (err (constraint "full"), q)
    ]
    else if url == "dead"
    then elim q.dead [
      | none ↦ (ok (some "m"), record q { dead = some body })
      | some b ↦ (err (constraint "full"), q)
    ]
    else (err (constraint "no such queue"), q)

abbrev delete_slots : String → Slots → Outcome (Unit {0}) × Slots
delete_slots url q =
    if url == "main"
    then (ok tt, record q { main = none })
    else if url == "dead"
    then (ok tt, record q { dead = none })
    else (err (constraint "no such queue"), q)

abbrev batch : List MessageRecord → List SqsMessage
batch [] = []
batch (r ∷ rows) = record { receipt_handle = some "h"; body = some (json r.message) } ∷ []

abbrev sqs : SqsClient
sqs = record {
  State = Slots;
  send_message = send_slots;
  receive_message = λ url vt qty q. (ok (some (batch (stored q url))), q);
  change_message_visibility = λ url handle vt q. (ok tt, q);
  delete_message = λ url handle q. delete_slots url q;
}

slot_distinct : (o : Option Json) → DistinctIds (λ (r : MessageRecord). r.msg_id) (slot_rows o)
slot_distinct none = tt
slot_distinct (some b) = (tt, tt)

stored_distinct :
    (q : Slots) (url : String) → DistinctIds (λ (r : MessageRecord). r.msg_id) (stored q url)
stored_distinct q url = elim (Bool-cases (url == "main")) [
  | inl m ↦ rw m (slot_distinct q.main)
  | inr n ↦
      rw n (elim (Bool-cases (url == "dead")) [
        | inl d ↦ rw d (slot_distinct q.dead)
        | inr e ↦ rw e tt
      ])
]

send_slots-law :
    (url : String) (body : Json) (q q' : Slots) (id : Option String)
    → send_slots url body q ≡ (ok id, q')
    → stored q' url ≡ stored q url ++ entry "m" body ∷ []
send_slots-law url body q q' id h = ground (arith, h)

send_slots-other :
    (url : String) (body : Json) (q q' : Slots) (id : Option String) (other : String)
    → send_slots url body q ≡ (ok id, q')
    → (other == url) ≡ false
    → stored q' other ≡ stored q other
send_slots-other url body q q' id other h k = ground (
  arith,
  h,
  k,
  eq_iff other url,
  eq_iff url "main",
  eq_iff other "main",
  eq_iff url "dead",
  eq_iff other "dead",
)

delete_slots-law :
    (url : String) (q q' : Slots)
    → delete_slots url q ≡ (ok tt, q')
    → stored q' url ≡ delete_where (has_id "m") (stored q url)
delete_slots-law url q q' h = ground (arith, h)

delete_slots-other :
    (url : String) (q q' : Slots) (other : String)
    → delete_slots url q ≡ (ok tt, q')
    → (other == url) ≡ false
    → stored q' other ≡ stored q other
delete_slots-other url q q' other h k = ground (
  arith,
  h,
  k,
  eq_iff other url,
  eq_iff url "main",
  eq_iff other "main",
  eq_iff url "dead",
  eq_iff other "dead",
)

-- the handle of either message
abbrev names : Slots → String → Option String
names q handle = some "m"

stored-cases :
    (q : Slots) (url : String)
    → (stored q url ≡ []) ⊎ ((b : Json) × (stored q url ≡ entry "m" b ∷ []))
stored-cases q url = elim (Bool-cases (url == "main")) [
  | inl m ↦ rw m (slot-cases q.main)
  | inr n ↦ rw n (elim (Bool-cases (url == "dead")) [
    | inl d ↦ rw d (slot-cases q.dead)
    | inr e ↦ rw e (inl refl)
  ])
]
  where
    slot-cases :
        (o : Option Json) → (slot_rows o ≡ []) ⊎ ((b : Json) × (slot_rows o ≡ entry "m" b ∷ []))
    slot-cases none = inl refl
    slot-cases (some b) = inr (b, refl)

batch-law :
    (q : Slots) (url : String)
    → DistinctIds (λ (m : QueueMessage). m.id) (parsed_batch (batch (stored q url)))
      × All
          (λ m.
            (mid : String) × (names q m.id ≡ some mid)
            × (row_of mid (stored q url) ≡ some (entry mid m.body)))
          (parsed_batch (batch (stored q url)))
unfolding parsed_batch
batch-law q url = elim (stored-cases q url) [
  | inl none' ↦ rw none' (tt, tt)
  | inr (b, one_row) ↦ rw one_row ((tt, tt), (("m", refl, refl), tt))
]

receive-law :
    (url : String) (q q' : Slots) (messages : Option (List SqsMessage))
    → ◌≡◌ {A = Outcome (Option (List SqsMessage)) × Slots}
        (ok (some (batch (stored q url))), q)
        (ok messages, q')
    → (stored q' ≡ stored q)
      × DistinctIds (λ (m : QueueMessage). m.id) (parsed_batch (or_none messages))
      × All
          (λ m.
            (mid : String) × (names q' m.id ≡ some mid)
            × (row_of mid (stored q' url) ≡ some (entry mid m.body)))
          (parsed_batch (or_none messages))
receive-law url q q' messages h =
    let same : q ≡ q' = ap (λ (x : Outcome (Option (List SqsMessage)) × Slots). x.1) h in
    let are : some (batch (stored q url)) ≡ messages = ground (arith, h) in
    subst
      (λ (u : Slots).
        (stored u ≡ stored q)
        × DistinctIds (λ (m : QueueMessage). m.id) (parsed_batch (or_none messages))
        × All
            (λ m.
              (mid : String) × (names u m.id ≡ some mid)
              × (row_of mid (stored u url) ≡ some (entry mid m.body)))
            (parsed_batch (or_none messages)))
      same
      (subst
        (λ (l : Option (List SqsMessage)).
          (stored q ≡ stored q)
          × DistinctIds (λ (m : QueueMessage). m.id) (parsed_batch (or_none l))
          × All
              (λ m.
                (mid : String) × (names q m.id ≡ some mid)
                × (row_of mid (stored q url) ≡ some (entry mid m.body)))
              (parsed_batch (or_none l)))
        are (refl, (batch-law q url).0, (batch-law q url).1))

delete-law :
    (url mid : String) (q q' : Slots)
    → ◌≡◌ {A = Option String} (some "m") (some mid)
    → delete_slots url q ≡ (ok tt, q')
    → (stored q' url ≡ delete_where (has_id mid) (stored q url))
      × ((other : String) → (other == url) ≡ false → stored q' other ≡ stored q other)
delete-law url mid q q' named h =
    let is_m : ◌≡◌ {A = String} "m" mid = ground (arith, named) in
    (
      subst (λ i. stored q' url ≡ delete_where (has_id i) (stored q url)) is_m
          (delete_slots-law url q q' h),
      λ other k. delete_slots-other url q q' other h k,
    )

storage : SqsStorage sqs
storage = record {
  stored = stored;
  names = names;
  distinct = stored_distinct;
  send_law = λ url body q q' id h. (
    "m",
    send_slots-law url body q q' id h,
    λ other k. send_slots-other url body q q' id other h k,
    refl,
  );
  receive_law = λ url vt qty q q' messages h. receive-law url q q' messages h;
  visibility_law =
      λ url handle vt q q' h. ap (λ (x : Outcome (Unit {0}) × Slots). stored x.1) (sym h);
  delete_law = λ url handle mid q q' named h. delete-law url mid q q' named h;
}

abbrev config : SqsQueueConfig
config = record { queue_url = "main"; dlq_url = "dead" }

send_slots-failed :
    (url : String) (body : Json) (q q' : Slots) (e : Error)
    → send_slots url body q ≡ (err e, q')
    → q' ≡ q
send_slots-failed url body q q' e h = ground (arith, h)

delete_slots-failed :
    (url : String) (q q' : Slots) (e : Error) → delete_slots url q ≡ (err e, q') → q' ≡ q
delete_slots-failed url q q' e h = ground (arith, h)

failures : SqsFailures sqs storage
unfolding storage
failures = record {
  send_error = λ url body q q' e h.
      let same : stored q' ≡ stored q = ap stored (send_slots-failed url body q q' e h) in
      (inl (ap (λ f. f url) same), λ other k. ap (λ f. f other) same);
  delete_error = λ url handle mid q q' e named h.
      let same : stored q' ≡ stored q = ap stored (delete_slots-failed url q q' e h) in
      (inl (ap (λ f. f url) same), λ other k. ap (λ f. f other) same);
}

sqs_queue-Lossless_example :
    Lossless
      (sqs_queue sqs config storage refl)
      (main_bodies sqs config storage refl)
      (dlq_bodies sqs config storage refl)
      (SqsHolds sqs config storage refl)
sqs_queue-Lossless_example = sqs_queue-Lossless sqs config storage refl failures
