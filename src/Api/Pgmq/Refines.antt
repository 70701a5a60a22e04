-- ===== src/Api/Pgmq/Refines.antt =====
-- The pgmq adapter keeps the contract of a queue.
use frontdesk_intake.Api.Contract.{one, Contract}
use frontdesk_intake.Database.Purge.Batch.{DistinctIds}
use frontdesk_intake.Api.Pgmq.{
  dropped, MessageRecord, Pgmq, postgres_ack, postgres_dead_letter, postgres_nack, postgres_queue,
  postgres_receive, postgres_send, sent_row, to_message, messages,
}
use frontdesk_intake.Prelude.{
  ℕ, ◌+◌, String, Bool, false, Option, some, List, [], ◌∷◌, ◌++◌, ◌≡◌, refl, ap, subst, ◌==◌,
  eq_iff, All, first, filter, delete_where, map, arith, Bool-cases, inl, inr,
}
use frontdesk_intake.Json.{Json}
use frontdesk_intake.Database.Tx.{Outcome, ok, err}
use frontdesk_intake.Database.Order.{count}
use frontdesk_intake.Api.Queue.{QueueMessage}

abbrev pub bodies : List MessageRecord → List Json
bodies rows = map (λ (r : MessageRecord). r.message) rows

abbrev pub has_id : String → MessageRecord → Bool
has_id id r = r.msg_id == id

-- the row with an identifier, which is the primary key
abbrev pub row_of : String → List MessageRecord → Option MessageRecord
row_of id rows = first (filter (has_id id) rows)

abbrev pub entry : String → Json → MessageRecord
entry id body = record { msg_id = id; message = body }

pub count-bodies-append :
    (p : Json → Bool) (rows : List MessageRecord) (id : String) (body : Json)
    → count p (bodies (rows ++ entry id body ∷ [])) ≡ count p (bodies rows) + one p body
count-bodies-append p [] id body = omega arith
count-bodies-append p (r ∷ rows) id body = omega (arith, count-bodies-append p rows id body)

delete_where-fresh :
    (id : String) (rows : List MessageRecord)
    → All (λ (y : MessageRecord). (id == y.msg_id) ≡ false) rows
    → delete_where (has_id id) rows ≡ rows
delete_where-fresh id [] h = refl
delete_where-fresh id (r ∷ rows) (h, hs) =
    ground (arith, h, eq_iff id r.msg_id, eq_iff r.msg_id id, delete_where-fresh id rows hs)

-- Deleting the row with an identifier takes its body away once.
pub count-bodies-delete_where :
    (p : Json → Bool) (id : String) (body : Json) (rows : List MessageRecord)
    → DistinctIds (λ (r : MessageRecord). r.msg_id) rows
    → row_of id rows ≡ some (entry id body)
    → count p (bodies (delete_where (has_id id) rows)) + one p body ≡ count p (bodies rows)
count-bodies-delete_where p id body [] d h = cc
count-bodies-delete_where p id body (r ∷ rows) (fresh, d) h = elim (Bool-cases (r.msg_id == id)) [
  | inl here ↦
      let same : r.msg_id ≡ id = (eq_iff r.msg_id id).0 here in
      let is_entry : r ≡ entry id body = ground (arith, rw here at h) in
      let is_body : r.message ≡ body = ap (λ (x : MessageRecord). x.message) is_entry in
      let rest : delete_where (has_id id) rows ≡ rows =
        delete_where-fresh id rows
          (subst (λ i. All (λ (y : MessageRecord). (i == y.msg_id) ≡ false) rows) same fresh) in
      rw here (rw rest (rw is_body (omega arith)))
  | inr other ↦ rw other (omega (arith, count-bodies-delete_where p id body rows d (rw other at h)))
]

-- The tables behind the functions, as pgmq documents them: the queue's, with msg_id as its primary
-- key, and its archive. A read or a new visibility timeout leaves msg_id and message as they are.
pub record PgmqTables (pgmq : Pgmq) (queue_name : String) : Type 0 where
  pub queue : pgmq.State → List MessageRecord
  pub archived : pgmq.State → List MessageRecord
  pub primary_key : (q : pgmq.State) → DistinctIds (λ (r : MessageRecord). r.msg_id) (queue q)
  pub send_law :
      (body : Json) (q q' : pgmq.State) (id : String) (rest : List String)
      → pgmq.send queue_name body q ≡ (ok (id ∷ rest), q')
      → (queue q' ≡ queue q ++ entry id body ∷ []) × (archived q' ≡ archived q)
  pub read_law :
      (vt qty : ℕ) (q q' : pgmq.State) (rows : List MessageRecord)
      → pgmq.read queue_name vt qty q ≡ (ok rows, q')
      → (queue q' ≡ queue q)
        × (archived q' ≡ archived q)
        × All (λ (r : MessageRecord). row_of r.msg_id (queue q) ≡ some r) rows
  pub delete_law :
      (id : String) (q q' : pgmq.State) (found : Bool)
      → pgmq.delete queue_name id q ≡ (ok found, q')
      → (queue q' ≡ delete_where (has_id id) (queue q)) × (archived q' ≡ archived q)
  pub set_vt_law :
      (id : String) (vt : ℕ) (q q' : pgmq.State) (rows : List MessageRecord)
      → pgmq.set_vt queue_name id vt q ≡ (ok rows, q')
      → (queue q' ≡ queue q) × (archived q' ≡ archived q)
  pub archive_law :
      (id : String) (q q' : pgmq.State) (found : Bool)
      → pgmq.archive queue_name id q ≡ (ok found, q')
      → (queue q' ≡ delete_where (has_id id) (queue q))
        × (archived q' ≡ archived q ++ filter (has_id id) (queue q))

filter-fresh :
    (id : String) (rows : List MessageRecord)
    → All (λ (y : MessageRecord). (id == y.msg_id) ≡ false) rows
    → filter (has_id id) rows ≡ []
filter-fresh id [] h = refl
filter-fresh id (r ∷ rows) (h, hs) =
    ground (arith, h, eq_iff id r.msg_id, eq_iff r.msg_id id, filter-fresh id rows hs)

-- a primary key finds one row
filter-row_of :
    (id : String) (r : MessageRecord) (rows : List MessageRecord)
    → DistinctIds (λ (x : MessageRecord). x.msg_id) rows
    → row_of id rows ≡ some r
    → filter (has_id id) rows ≡ r ∷ []
filter-row_of id r [] d h = cc
filter-row_of id r (x ∷ rows) (fresh, d) h = elim (Bool-cases (x.msg_id == id)) [
  | inl here ↦
      let same : x.msg_id ≡ id = (eq_iff x.msg_id id).0 here in
      let is_row : x ≡ r = ground (arith, rw here at h) in
      rw here (
        rw
          (filter-fresh id rows
            (subst (λ i. All (λ (y : MessageRecord). (i == y.msg_id) ≡ false) rows) same fresh))
          (ap (λ y. y ∷ []) is_row))
  | inr other ↦ rw other (filter-row_of id r rows d (rw other at h))
]

dropped-ok :
    {A S : Type 0} (r : Outcome A × S) (t : S) → dropped r ≡ (ok tt, t) → (a : A) × (r ≡ (ok a, t))
dropped-ok (ok a, q) t h = (a, ap (λ (x : Outcome (Unit {0}) × _). (ok a, x.1)) h)
dropped-ok (err e, q) t h = cc

module _ (pgmq : Pgmq) (queue_name : String) (tables : PgmqTables pgmq queue_name) where
  abbrev pub queued : pgmq.State → List Json
  queued q = bodies (tables.queue q)

  abbrev pub archive_of : pgmq.State → List Json
  archive_of q = bodies (tables.archived q)

  abbrev pub PgmqHolds : String → Json → pgmq.State → Type 0
  PgmqHolds id body q = row_of id (tables.queue q) ≡ some (entry id body)

  sent_row-ok :
      (r : Outcome (List String) × pgmq.State) (id : String) (t : pgmq.State)
      → sent_row pgmq queue_name r ≡ (ok id, t)
      → (rest : List String) × (r ≡ (ok (id ∷ rest), t))
  sent_row-ok (err e, q) id t h = cc
  sent_row-ok (ok [], q) id t h = cc
  sent_row-ok (ok (x ∷ rest), q) id t h = (rest, cc)

  messages-ok :
      (r : Outcome (List MessageRecord) × pgmq.State) (ms : List QueueMessage) (t : pgmq.State)
      → messages pgmq queue_name r ≡ (ok ms, t)
      → (rows : List MessageRecord) × (r ≡ (ok rows, t)) × (ms ≡ map to_message rows)
  messages-ok (err e, q) ms t h = cc
  messages-ok (ok rows, q) ms t h = (rows, cc, cc)

  all_held :
      (rows : List MessageRecord) (t : pgmq.State)
      → All (λ (r : MessageRecord). row_of r.msg_id (tables.queue t) ≡ some r) rows
      → All (λ (m : QueueMessage). PgmqHolds m.id m.body t) (map to_message rows)
  all_held [] t h = tt
  all_held (r ∷ rows) t (h, hs) = (h, all_held rows t hs)

  -- With the tables that pgmq documents, the adapter over it keeps the contract of a queue: a sent body
  -- goes live, a received handle holds its body, an acknowledged one leaves, a returned one stays, and
  -- a dead-lettered one is in the archive instead.
  pub postgres_queue-Contract :
      Contract (postgres_queue pgmq queue_name) queued archive_of PgmqHolds
  unfolding postgres_send postgres_receive postgres_ack postgres_nack postgres_dead_letter
  postgres_queue-Contract = record {
    send_lem = λ body s t id p h.
        let (rest, sent) = sent_row-ok (pgmq.send queue_name body s) id t h in
        let (now, same) = tables.send_law body s t id rest sent in
        (rw now (count-bodies-append p (tables.queue s) id body), rw same refl);
    receive_lem = λ vt qty s t ms p h.
        let (rows, read, are) = messages-ok (pgmq.read queue_name vt qty s) ms t h in
        let (same, same', held) = tables.read_law vt qty s t rows read in
        (rw same refl, rw same' refl, rw are (all_held rows t (rw same held)));
    ack_lem = λ id body s t p held h.
        let (found, deleted) = dropped-ok (pgmq.delete queue_name id s) t h in
        let (now, same) = tables.delete_law id s t found deleted in
        (
          rw now (count-bodies-delete_where p id body (tables.queue s) (tables.primary_key s) held),
          rw same refl,
        );
    nack_lem = λ id body s t p held h.
        let (rows, set) = dropped-ok (pgmq.set_vt queue_name id 0 s) t h in
        let (same, same') = tables.set_vt_law id 0 s t rows set in (rw same refl, rw same' refl);
    dead_letter_lem = λ id body s t p held h.
        let (found, moved) = dropped-ok (pgmq.archive queue_name id s) t h in
        let (now, then') = tables.archive_law id s t found moved in
        (
          rw now (count-bodies-delete_where p id body (tables.queue s) (tables.primary_key s) held),
          rw then' (
              rw (filter-row_of id (entry id body) (tables.queue s) (tables.primary_key s) held)
                (count-bodies-append p (tables.archived s) id body)),
        );
  }
