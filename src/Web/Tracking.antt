-- ===== src/Web/Tracking.antt =====
-- web/src/lib/tracking.ts: what the public page /t/<token> shows.
pub mod Views
pub mod Decisions
use frontdesk_intake.Prelude.{ℕ, String, Bool, ◌&&◌, Option, none, some, ◌==◌, first}
use frontdesk_intake.Database.Enums.{RequestStatus}
use frontdesk_intake.Database.Rows.{Database, Request}
use frontdesk_intake.Database.Tx.{Outcome, ok, err, Tx, pure, ◌>>=◌}
use frontdesk_intake.Database.Statements.{select_requests}
use frontdesk_intake.Database.Client.{TrackingResolution, for_org, resolve_tracking}

-- `Exclude<RequestStatus, "approved">`
pub data NonApprovedStatus : Type 0 where
  received triaging drafted needs_human rejected : NonApprovedStatus

pub data TrackingView : Type 0 where
  not_found : TrackingView
  status_view : NonApprovedStatus → TrackingView
  approved_view : String → TrackingView

abbrev pub or_empty : Option String → String
or_empty none = ""
or_empty (some t) = t

-- The one branch that may carry a reply is that of an approved request.
unfoldable pub view_of : RequestStatus → Option String → TrackingView
view_of RequestStatus.approved reply_text = approved_view (or_empty reply_text)
view_of RequestStatus.received reply_text = status_view received
view_of RequestStatus.triaging reply_text = status_view triaging
view_of RequestStatus.drafted reply_text = status_view drafted
view_of RequestStatus.needs_human reply_text = status_view needs_human
view_of RequestStatus.rejected reply_text = status_view rejected

abbrev pub row_view : Outcome (Option Request) → Outcome TrackingView
row_view (err e) = err e
row_view (ok none) = ok not_found
row_view (ok (some row)) = ok (view_of row.status row.reply_text)

-- the scoped read of the row that a token resolves to
unfoldable pub tracked_row : String → String → Tx (Option Request)
tracked_row request_id org_id = do
  rows ← select_requests (λ r. r.org_id == org_id && r.id == request_id)
  pure (first rows)

unfoldable pub get_tracking_view : String → Database → Outcome TrackingView
unfolding tracked_row
get_tracking_view token s = elim (resolve_tracking token s) [
  | none ↦ ok not_found
  | some resolution ↦ row_view (for_org resolution.org_id (tracked_row resolution.request_id) s).0
]

unfoldable pub status_label : NonApprovedStatus → String
status_label received = "Received"
status_label triaging = "In review"
status_label drafted = "In review"
status_label needs_human = "In review"
status_label rejected = "Reviewed"

unfoldable pub status_description : NonApprovedStatus → String
status_description received =
    "We have your message. Nobody has picked it up yet - check back here for updates."
status_description rejected =
    "We have reviewed your request and will not be replying here. If you still need help, send a new message or get in touch directly."
status_description _ =
    "Someone is working on your request now. Their reply will appear on this page once it has been approved."
