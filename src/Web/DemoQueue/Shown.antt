-- ===== src/Web/DemoQueue/Shown.antt =====
-- What the demo queue shows.
use frontdesk_intake.Prelude.{
  ℕ, String, true, ◌&&◌, List, map, take, filter, filter-congr, ◌==◌, ◌≡◌, ap, ◌⊎◌, arith, leb,
}
use frontdesk_intake.Database.Rows.{Database, Request}
use frontdesk_intake.Database.Tx.{ok, ◌>>=◌}
use frontdesk_intake.Database.Statements.{select_requests}
use frontdesk_intake.Database.Order.{Postgres, IsOrder}
use frontdesk_intake.Database.Limit.{IsTop, limit-IsTop}
use frontdesk_intake.Database.Client.{for_org}
use frontdesk_intake.Web.DemoQueue.{
  created_desc, to_demo_item, demo_queue_limit, demo_rows_tx, get_demo_queue,
}

newest_first_total : (a b : ℕ) → (leb b a ≡ true) ⊎ (leb a b ≡ true)
newest_first_total a b = ground arith

newest_first_trans : (a b c : ℕ) → leb b a ≡ true → leb c b ≡ true → leb c a ≡ true
newest_first_trans a b c h k = ground arith

created_desc-IsOrder : IsOrder created_desc
created_desc-IsOrder = record {
  total = λ a b. newest_first_total a.created_at b.created_at;
  trans = λ a b c h k. newest_first_trans a.created_at b.created_at c.created_at h k;
}

-- The queue is the newest 20, or all, of the org's requests.
pub get_demo_queue-IsTop :
    (pg : Postgres) (org_id : String) (s : Database)
    → (shown : List Request) × (get_demo_queue pg org_id s ≡ ok (map to_demo_item shown))
      × IsTop created_desc demo_queue_limit (filter (λ r. r.org_id == org_id) s.requests) shown
unfolding get_demo_queue for_org demo_rows_tx select_requests ◌>>=◌
get_demo_queue-IsTop pg org_id s = (
  _,
  ap
      (λ (x : List Request).
        ok (map to_demo_item (take demo_queue_limit (pg.order_by created_desc x))))
      (filter-congr (λ r. r.org_id == org_id && r.org_id == org_id) (λ r. r.org_id == org_id)
        s.requests (λ r. ground arith)),
  limit-IsTop pg created_desc demo_queue_limit (filter (λ r. r.org_id == org_id) s.requests)
      created_desc-IsOrder,
)
