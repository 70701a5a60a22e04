-- ===== src/Tests/QueueRuns.antt =====
-- A pgmq that knows which queues were created and has room for one message.
use frontdesk_intake.Api.Contract.{Contract}
use frontdesk_intake.Api.Pgmq.Refines.{
  queued, archive_of, PgmqHolds, postgres_queue-Contract, entry, PgmqTables, has_id, row_of,
}
use frontdesk_intake.Api.Pgmq.{postgres_queue, MessageRecord, Pgmq}
use frontdesk_intake.Database.Purge.Batch.{DistinctIds}
use mathlib.Core.List.{append-nil}
use frontdesk_intake.Prelude.{
  ap, subst, String, Bool, true, false, Option, none, some, List, [], ◌∷◌, ◌++◌, ◌≡◌, refl, ◌==◌,
  All, map, delete_where, filter, if◌then◌else◌, arith,
}
use frontdesk_intake.Json.{Json}
use frontdesk_intake.Database.Tx.{Outcome, ok, err, constraint}

pub record Slot : Type 0 where
  pub created : List String
  pub body : Option Json
  pub archive : List Json

abbrev pub slot_rows : Option Json → List MessageRecord
slot_rows none = []
slot_rows (some b) = entry "1" b ∷ []

abbrev archive_rows : List Json → List MessageRecord
archive_rows bs = map (λ (b : Json). entry "1" b) bs

abbrev pub send_slot : Json → Slot → Outcome (List String) × Slot
send_slot body q = elim q.body [
  | none ↦ (ok ("1" ∷ []), record q { body = some body })
  | some b ↦ (err (constraint "full"), q)
]

abbrev take_slot : String → Slot → Outcome Bool × Slot
take_slot id q = if "1" == id then (ok true, record q { body = none }) else (ok false, q)

abbrev slot_bodies : Option Json → List Json
slot_bodies none = []
slot_bodies (some b) = b ∷ []

abbrev move_slot : String → Slot → Outcome Bool × Slot
move_slot id q =
    if "1" == id
    then (ok true, record q { body = none; archive = q.archive ++ slot_bodies q.body })
    else (ok false, q)

abbrev pub slot_pgmq : Pgmq
slot_pgmq = record {
  State = Slot;
  create = λ name q. (ok tt, record q { created = name ∷ q.created });
  send = λ name body q. send_slot body q;
  read = λ name vt qty q. (ok (slot_rows q.body), q);
  delete = λ name id q. take_slot id q;
  set_vt = λ name id vt q. (ok [], q);
  archive = λ name id q. move_slot id q;
}

pub slot_key : (o : Option Json) → DistinctIds (λ (r : MessageRecord). r.msg_id) (slot_rows o)
slot_key none = tt
slot_key (some b) = (tt, tt)

pub send_slot-law :
    (body : Json) (q q' : Slot) (id : String) (rest : List String)
    → send_slot body q ≡ (ok (id ∷ rest), q')
    → (slot_rows q'.body ≡ slot_rows q.body ++ entry id body ∷ [])
      × (archive_rows q'.archive ≡ archive_rows q.archive)
send_slot-law body q q' id rest h = ground (arith, h)

read_slot-law :
    (o : Option Json)
    → All (λ (r : MessageRecord). row_of r.msg_id (slot_rows o) ≡ some r) (slot_rows o)
read_slot-law none = tt
read_slot-law (some b) = (refl, tt)

pub take_slot-law :
    (id : String) (q q' : Slot) (found : Bool)
    → take_slot id q ≡ (ok found, q')
    → (slot_rows q'.body ≡ delete_where (has_id id) (slot_rows q.body))
      × (archive_rows q'.archive ≡ archive_rows q.archive)
take_slot-law id q q' found h = ground (arith, h)

archive_rows-append :
    (xs ys : List Json) → archive_rows (xs ++ ys) ≡ archive_rows xs ++ archive_rows ys
archive_rows-append [] ys = refl
archive_rows-append (x ∷ xs) ys = ap (λ l. entry "1" x ∷ l) (archive_rows-append xs ys)

pub move_slot-law :
    (id : String) (q q' : Slot) (found : Bool)
    → move_slot id q ≡ (ok found, q')
    → (slot_rows q'.body ≡ delete_where (has_id id) (slot_rows q.body))
      × (archive_rows q'.archive ≡ archive_rows q.archive ++ filter (has_id id) (slot_rows q.body))
move_slot-law id q q' found h = ground (
  arith,
  h,
  archive_rows-append q.archive (slot_bodies q.body),
  append-nil (archive_rows q.archive),
)

pub read_law :
    (q q' : Slot) (rows : List MessageRecord)
    → ◌≡◌ {A = Outcome (List MessageRecord) × Slot} (ok (slot_rows q.body), q) (ok rows, q')
    → (slot_rows q'.body ≡ slot_rows q.body)
      × (archive_rows q'.archive ≡ archive_rows q.archive)
      × All (λ (r : MessageRecord). row_of r.msg_id (slot_rows q.body) ≡ some r) rows
read_law q q' rows h =
    let same : q ≡ q' = ap (λ (x : Outcome (List MessageRecord) × Slot). x.1) h in
    let are : slot_rows q.body ≡ rows = ground (arith, h) in
    (
      rw same refl,
      rw same refl,
      subst (λ l. All (λ (r : MessageRecord). row_of r.msg_id (slot_rows q.body) ≡ some r) l) are
          (read_slot-law q.body),
    )

pub set_vt_law :
    (q q' : Slot) (rows : List MessageRecord)
    → ◌≡◌ {A = Outcome (List MessageRecord) × Slot} (ok [], q) (ok rows, q')
    → (slot_rows q'.body ≡ slot_rows q.body) × (archive_rows q'.archive ≡ archive_rows q.archive)
set_vt_law q q' rows h =
    let same : q ≡ q' = ap (λ (x : Outcome (List MessageRecord) × Slot). x.1) h in
    (rw same refl, rw same refl)

abbrev pub slot_tables : (name : String) → PgmqTables slot_pgmq name
slot_tables name = record {
  queue = λ q. slot_rows q.body;
  archived = λ q. archive_rows q.archive;
  primary_key = λ q. slot_key q.body;
  send_law = send_slot-law;
  read_law = λ vt qty q q' rows h. read_law q q' rows h;
  delete_law = take_slot-law;
  set_vt_law = λ id vt q q' rows h. set_vt_law q q' rows h;
  archive_law = move_slot-law;
}

postgres_queue-Contract_example :
    Contract
      (postgres_queue slot_pgmq "q")
      (queued slot_pgmq "q" (slot_tables "q"))
      (archive_of slot_pgmq "q" (slot_tables "q"))
      (PgmqHolds slot_pgmq "q" (slot_tables "q"))
postgres_queue-Contract_example = postgres_queue-Contract slot_pgmq "q" (slot_tables "q")
