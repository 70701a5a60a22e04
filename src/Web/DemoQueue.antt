-- ===== src/Web/DemoQueue.antt =====
-- web/src/lib/demoQueue.ts: the public queue of the demo org.
pub mod Shown
use frontdesk_intake.Prelude.{ℕ, String, Bool, Option, List, ◌==◌, first, map, take, leb}
use frontdesk_intake.Database.Enums.{RequestStatus}
use frontdesk_intake.Database.Rows.{Database, Org, Request}
use frontdesk_intake.Database.Tx.{Outcome, ok, err, Tx, pure, ◌>>=◌}
use frontdesk_intake.Database.Statements.{select_requests, select_orgs}
use frontdesk_intake.Database.Order.{Postgres}
use frontdesk_intake.Database.Client.{for_org}
use frontdesk_intake.Web.Tracking.{
  NonApprovedStatus, received, triaging, drafted, needs_human, rejected, or_empty,
}

pub record DemoOrg : Type 0 where
  pub id : String
  pub slug : String
  pub name : String

abbrev to_demo_org : Org → DemoOrg
to_demo_org o = record { id = o.id; slug = o.slug; name = o.name }

-- LIMIT 1
unfoldable pub get_demo_org : Database → Option DemoOrg
get_demo_org s = first (map to_demo_org (take 1 (select_orgs (λ o. o.is_demo) s)))

pub data DemoQueueItem : Type 0 where
  status_item : String → String → NonApprovedStatus → DemoQueueItem
  approved_item : String → String → String → DemoQueueItem

abbrev pub demo_queue_limit : ℕ
demo_queue_limit = 20

-- ORDER BY created_at DESC
abbrev pub created_desc : Request → Request → Bool
created_desc a b = leb b.created_at a.created_at

abbrev demo_item : String → String → RequestStatus → Option String → DemoQueueItem
demo_item id subject RequestStatus.approved reply_text =
    approved_item id subject (or_empty reply_text)
demo_item id subject RequestStatus.received reply_text = status_item id subject received
demo_item id subject RequestStatus.triaging reply_text = status_item id subject triaging
demo_item id subject RequestStatus.drafted reply_text = status_item id subject drafted
demo_item id subject RequestStatus.needs_human reply_text = status_item id subject needs_human
demo_item id subject RequestStatus.rejected reply_text = status_item id subject rejected

abbrev pub to_demo_item : Request → DemoQueueItem
to_demo_item r = demo_item r.id r.subject r.status r.reply_text

unfoldable pub demo_rows_tx : Postgres → String → Tx (List Request)
demo_rows_tx pg org_id = do
  rows ← select_requests (λ r. r.org_id == org_id)
  pure (take demo_queue_limit (pg.order_by created_desc rows))

abbrev demo_items : Outcome (List Request) → Outcome (List DemoQueueItem)
demo_items (ok rows) = ok (map to_demo_item rows)
demo_items (err e) = err e

unfoldable pub get_demo_queue : Postgres → String → Database → Outcome (List DemoQueueItem)
unfolding demo_rows_tx
get_demo_queue pg org_id s = demo_items (for_org org_id (demo_rows_tx pg) s).0
