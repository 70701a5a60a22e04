-- ===== src/Api/SeedIngest.antt =====
-- api/src/queue/seed-ingest.ts: one message for each pending document, at startup.
use frontdesk_intake.Prelude.{
  ℕ, ◌+◌, String, Bool, true, false, ◌&&◌, not, List, [], ◌∷◌, ◌++◌, ◌==◌, ◌≡◌, refl, sym, ap, ◌∙◌,
  map, filter, filter-congr, is_empty, all, arith,
}
use frontdesk_intake.Json.{Json}
use frontdesk_intake.Database.Enums.{document_is_pending}
use frontdesk_intake.Database.Rows.{Database, Org, Document}
use frontdesk_intake.Database.Tx.{Outcome, ok, Tx, and_then, and_then_assoc}
use frontdesk_intake.Database.Statements.{select_documents, select_orgs}
use frontdesk_intake.Database.Client.{for_org}
use frontdesk_intake.Api.Queue.{
  Queue, MessageSchema, assert_ingest_message, ingest_message, issues_verdict,
}

abbrev pub is_pending_of : String → Document → Bool
is_pending_of org_id d = d.org_id == org_id && document_is_pending d.status

unfoldable pub pending_documents : String → Tx (List Document)
pending_documents org_id = select_documents (is_pending_of org_id)

module _ (queue : Queue) (schema : MessageSchema "documentId") where
  -- one message: checked, then sent
  unfoldable pub send_ingest : Json → queue.State → Outcome String × queue.State
  send_ingest message q =
      and_then (assert_ingest_message schema message, q) (λ checked q'. queue.send message q')

  -- The loop over an org's documents; an error ends it and the caller's.
  unfoldable pub enqueue_documents :
      String → List Document → ℕ → queue.State → Outcome ℕ × queue.State
  unfolding send_ingest
  enqueue_documents org_id [] enqueued q = (ok enqueued, q)
  enqueue_documents org_id (doc ∷ docs) enqueued q =
      and_then (send_ingest (ingest_message org_id doc.id) q)
        (λ id q'. enqueue_documents org_id docs (enqueued + 1) q')

  unfoldable pub enqueue_orgs : List Org → Database → ℕ → queue.State → Outcome ℕ × queue.State
  unfolding enqueue_documents pending_documents
  enqueue_orgs [] s enqueued q = (ok enqueued, q)
  enqueue_orgs (org ∷ orgs) s enqueued q =
      and_then ((for_org org.id pending_documents s).0, q)
        (λ pending q1.
          and_then (enqueue_documents org.id pending enqueued q1)
            (λ n q2. enqueue_orgs orgs s n q2))

  unfoldable pub enqueue_pending_ingest_messages : Database → queue.State → Outcome ℕ × queue.State
  unfolding enqueue_orgs
  enqueue_pending_ingest_messages s q = enqueue_orgs (select_orgs (λ o. true) s) s 0 q

  -- Sending a list of messages, counting them, up to the first that the queue does not take.
  abbrev pub send_all : List Json → ℕ → queue.State → Outcome ℕ × queue.State
  send_all [] n q = (ok n, q)
  send_all (m ∷ ms) n q = and_then (queue.send m q) (λ id q'. send_all ms (n + 1) q')

  -- the messages of the pending documents, org by org
  abbrev pub ingest_messages : List Org → Database → List Json
  ingest_messages [] s = []
  ingest_messages (org ∷ orgs) s =
      map (λ (d : Document). ingest_message org.id d.id) (filter (is_pending_of org.id) s.documents)
      ++ ingest_messages orgs s

  abbrev pub ids_given : Database → Bool
  ids_given s = all (λ o. not (is_empty o.id)) s.orgs && all (λ d. not (is_empty d.id)) s.documents

  send_ingest-eq :
      (o d : String) (q : queue.State)
      → is_empty o ≡ false
      → is_empty d ≡ false
      → send_ingest (ingest_message o d) q ≡ queue.send (ingest_message o d) q
  unfolding send_ingest assert_ingest_message issues_verdict ingest_message
  send_ingest-eq o d q h k = rw (schema.accepts o d h k) refl

  send_all-append :
      (ms ns : List Json) (n : ℕ) (q : queue.State)
      → send_all (ms ++ ns) n q ≡ and_then (send_all ms n q) (λ k q'. send_all ns k q')
  send_all-append [] ns n q = refl
  send_all-append (m ∷ ms) ns n q =
      (λ i. and_then (queue.send m q) (λ id q'. send_all-append ms ns (n + 1) q' i))
      ∙ sym (
          and_then_assoc (queue.send m q) (λ id q'. send_all ms (n + 1) q')
            (λ k q'. send_all ns k q'))

  enqueue_documents-eq :
      (o : String) (docs : List Document) (n : ℕ) (q : queue.State)
      → is_empty o ≡ false
      → all (λ d. not (is_empty d.id)) docs ≡ true
      → enqueue_documents o docs n q
        ≡ send_all (map (λ (d : Document). ingest_message o d.id) docs) n q
  unfolding enqueue_documents
  enqueue_documents-eq o [] n q h k = refl
  enqueue_documents-eq o (d ∷ docs) n q h k =
      (λ i.
        and_then (send_ingest-eq o d.id q h (ground (arith, k)) i)
          (λ id q'. enqueue_documents o docs (n + 1) q'))
      ∙ (λ i.
          and_then (queue.send (ingest_message o d.id) q)
            (λ id q'. enqueue_documents-eq o docs (n + 1) q' h (ground (arith, k)) i))

  all-filter :
      {A : Type 0} (p q : A → Bool) (xs : List A) → all p xs ≡ true → all p (filter q xs) ≡ true
  all-filter p q [] h = refl
  all-filter p q (x ∷ xs) h = ground (arith, all-filter p q xs)

  pending-eq :
      (o : String) (s : Database)
      → for_org o pending_documents s ≡ (ok (filter (is_pending_of o) s.documents), s)
  unfolding for_org pending_documents select_documents
  pending-eq o s =
      ap (λ (x : List Document). (ok x, s))
        (filter-congr (λ d. d.org_id == o && is_pending_of o d) (is_pending_of o) s.documents
          (λ d. ground arith))

  enqueue_orgs-eq :
      (orgs : List Org) (s : Database) (n : ℕ) (q : queue.State)
      → all (λ o. not (is_empty o.id)) orgs ≡ true
      → all (λ d. not (is_empty d.id)) s.documents ≡ true
      → enqueue_orgs orgs s n q ≡ send_all (ingest_messages orgs s) n q
  unfolding enqueue_orgs
  enqueue_orgs-eq [] s n q h k = refl
  enqueue_orgs-eq (org ∷ orgs) s n q h k =
      let pending = filter (is_pending_of org.id) s.documents in
      let ms = map (λ (d : Document). ingest_message org.id d.id) pending in
      (λ i.
        and_then ((pending-eq org.id s i).0, q)
          (λ docs q1.
            and_then (enqueue_documents org.id docs n q1) (λ m q2. enqueue_orgs orgs s m q2)))
      ∙ (λ i.
          and_then
            (enqueue_documents-eq org.id pending n q (ground (arith, h))
              (all-filter (λ d. not (is_empty d.id)) (is_pending_of org.id) s.documents k) i)
            (λ m q2. enqueue_orgs orgs s m q2))
      ∙ (λ i.
          and_then (send_all ms n q) (λ m q2. enqueue_orgs-eq orgs s m q2 (ground (arith, h)) k i))
      ∙ sym (send_all-append ms (ingest_messages orgs s) n q)

  filter-all : {A : Type 0} (xs : List A) → filter (λ x. true) xs ≡ xs
  filter-all [] = refl
  filter-all (x ∷ xs) = ap (λ ys. x ∷ ys) (filter-all xs)

  -- Where no org and no document has an empty id, the startup job sends one message for each
  -- pending document of each org, in the order of the orgs and then of the documents, until the
  -- queue does not take one, and returns their number.
  pub enqueue_pending_ingest_messages-eq :
      (s : Database) (q : queue.State)
      → ids_given s ≡ true
      → enqueue_pending_ingest_messages s q ≡ send_all (ingest_messages s.orgs s) 0 q
  unfolding enqueue_pending_ingest_messages select_orgs
  enqueue_pending_ingest_messages-eq s q h =
      (λ i. enqueue_orgs (filter-all s.orgs i) s 0 q)
      ∙ enqueue_orgs-eq s.orgs s 0 q (ground (arith, h)) (ground (arith, h))
