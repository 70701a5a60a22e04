-- ===== src/Web/StaffQueue/Shown.antt =====
-- What the staff queue shows: the org's matching requests that need a person first.
use frontdesk_intake.Prelude.{
  take, ℕ, String, Bool, true, ◌&&◌, List, map, filter, filter-congr, ◌==◌, ◌≡◌, ap, ◌⊎◌, arith,
  ltb, leb, nat_beq, ◌||◌,
}
use frontdesk_intake.Database.Rows.{Database, Request}
use frontdesk_intake.Database.Tx.{ok, ◌>>=◌}
use frontdesk_intake.Database.Statements.{select_requests}
use frontdesk_intake.Database.Order.{Postgres, IsOrder}
use frontdesk_intake.Database.Limit.{IsTop, limit-IsTop}
use frontdesk_intake.Database.Client.{for_org}
use frontdesk_intake.Web.StaffQueue.{
  StaffQueueFilters, triage_rank, triage_order, passes, to_item, queue_limit, staff_queue_tx,
  get_staff_queue,
}

rank_order : ℕ → ℕ → ℕ → ℕ → Bool
rank_order r c r' c' = ltb r r' || (nat_beq r r' && leb c' c)

-- Rank first, then the newest.
triage_order-IsOrder : IsOrder triage_order
unfolding triage_order
triage_order-IsOrder = record {
  total = λ a b.
      total (triage_rank a.status a.urgency) a.created_at (triage_rank b.status b.urgency)
        b.created_at;
  trans = λ a b c h k.
      trans (triage_rank a.status a.urgency) a.created_at (triage_rank b.status b.urgency)
        b.created_at (triage_rank c.status c.urgency) c.created_at h k;
}
  where
    total :
        (r c r' c' : ℕ)
        → ((ltb r r' || (nat_beq r r' && leb c' c)) ≡ true)
          ⊎ ((ltb r' r || (nat_beq r' r && leb c c')) ≡ true)
    total r c r' c' = ground arith

    trans :
        (r c r' c' r'' c'' : ℕ)
        → (ltb r r' || (nat_beq r r' && leb c' c)) ≡ true
        → (ltb r' r'' || (nat_beq r' r'' && leb c'' c')) ≡ true
        → (ltb r r'' || (nat_beq r r'' && leb c'' c)) ≡ true
    trans r c r' c' r'' c'' h k = ground arith

-- The queue is the first 50, or all, of the org's requests that pass the filters, ordered by
-- triage rank and then from the newest to the oldest.
pub get_staff_queue-IsTop :
    (pg : Postgres) (org_id : String) (filters : StaffQueueFilters) (s : Database)
    → (shown : List Request) × (get_staff_queue pg org_id filters s ≡ ok (map to_item shown))
      × IsTop triage_order queue_limit
          (filter (λ r. r.org_id == org_id && passes filters r) s.requests)
          shown
unfolding get_staff_queue for_org staff_queue_tx select_requests ◌>>=◌
get_staff_queue-IsTop pg org_id filters s = (
  _,
  ap (λ (x : List Request). ok (map to_item (take queue_limit (pg.order_by triage_order x))))
      (filter-congr (λ r. r.org_id == org_id && (r.org_id == org_id && passes filters r))
        (λ r. r.org_id == org_id && passes filters r) s.requests (λ r. ground arith)),
  limit-IsTop pg triage_order queue_limit
      (filter (λ r. r.org_id == org_id && passes filters r) s.requests) triage_order-IsOrder,
)
