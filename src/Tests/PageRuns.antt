-- ===== src/Tests/PageRuns.antt =====
-- The pages of the small clinic, with a request whose identifier is a UUID.
use frontdesk_intake.Web.Pages.Links.{hrefs}
use frontdesk_intake.Web.Guard.{
  AuthenticatedMembership, require_session_or_redirect, resolve_auth_state, Visitor,
}
use frontdesk_intake.Web.Html.{
  Format, Html, ServerAction, edit_form, approve_form, reject_form, rendered,
}
use frontdesk_intake.Database.Limit.{IsTop}
use frontdesk_intake.Web.Pages.Detail.Resolves.{
  Offers, request_detail_page-Offers, request_detail_page-resolves,
}
use frontdesk_intake.Database.Settings.{OrgSettings}
use frontdesk_intake.Web.StaffQueue.{
  StaffQueueFilterOptions, page_filters, queue_limit, to_string_array, triage_order, once, absent,
  passes,
}
use frontdesk_intake.Web.Staff.{edit_approve_request_action, revalidate_queue_and_detail}
use frontdesk_intake.Web.StaffQueue.Options.{get_staff_queue_filter_options}
use frontdesk_intake.Prelude.{
  trim, is_space, trim_end, trim_start, String, true, none, List, [], ◌∷◌, ◌==◌, ◌&&◌, ◌≡◌, refl,
  map, filter,
}
use frontdesk_intake.Web.Pages.Detail.{is_uuid, request_detail_page}
use frontdesk_intake.Web.Pages.Queue.Linked.{request_link, staff_queue_page-links}
use frontdesk_intake.Database.Enums.{request_statuses, staff, RequestStatus}
use frontdesk_intake.Database.Client.{resolve_membership}
use frontdesk_intake.Web.Pages.Queue.{staff_queue_page}
use frontdesk_intake.Web.Form.{string_field}
use frontdesk_intake.Web.Pages.Tracking.{tracking_page}
use frontdesk_intake.Web.Pages.Tracking.Private.{tracking_page-private}
use frontdesk_intake.Database.Rows.{Database, Request}
use frontdesk_intake.Database.Tx.{ok}
use frontdesk_intake.Tests.Server.{server}
use frontdesk_intake.Tests.Fixture.{clinic, supply, ann, reply_form, request_row, draft_row}

abbrev id : String
id = "01234567-89ab-cdef-0123-456789abcdef"

abbrev open_request : Request
open_request = request_row "dental" id "t9" RequestStatus.needs_human 60

abbrev other : Request
other = request_row "legal" "r2" "t2" RequestStatus.drafted 5

abbrev desk : Database
desk = record clinic {
  requests = open_request ∷ clinic.requests;
  drafts = draft_row "dental" id "d9" 1 "Come at nine." ∷ clinic.drafts;
}

abbrev member : AuthenticatedMembership
member = record { org_id = "dental"; role = staff; email = "ann@dental.test" }

-- any way to write dates and numbers
abbrev format : Format
format = record { iso = λ n. "then"; decimal = λ n. "1" }

is_member : require_session_or_redirect server ann desk ≡ Visitor.member member
unfolding require_session_or_redirect resolve_auth_state resolve_membership
is_member = refl

id-is_uuid : is_uuid id ≡ true
unfolding is_uuid
id-is_uuid = refl

request_detail_page-Offers_example :
    Offers
      (request_detail_page format server ann id desk)
      (edit_form id ∷ approve_form id ∷ reject_form id ∷ [])
request_detail_page-Offers_example =
    request_detail_page-Offers server format ann id member desk open_request is_member id-is_uuid
      refl

request_detail_page-resolves_example :
    (more : List ServerAction) × (t : Database) × Offers
      (request_detail_page format server ann id desk)
      (edit_form id ∷ more)
    × (edit_approve_request_action server supply ann id reply_form desk
        ≡ (ok (record { revalidated = revalidate_queue_and_detail id; redirect = "/app" }), t))
    × Offers (request_detail_page format server ann id t) []
unfolding string_field trim trim_start trim_end is_space
request_detail_page-resolves_example =
    request_detail_page-resolves server format ann id member supply reply_form desk open_request
      is_member id-is_uuid refl refl refl refl refl

tracking_page-private_example : tracking_page format "t9" desk ≡ tracking_page format "t2" clinic
tracking_page-private_example =
    tracking_page-private format "t9" "t2" desk clinic open_request other open_request other refl
      refl refl refl refl refl refl

abbrev settings : OrgSettings
settings = record {
  categories = [];
  lanes = record { key = "billing"; value = "front" } ∷ [];
  category_descriptions = none;
  similarity_floor = none;
}

abbrev options : StaffQueueFilterOptions
options = record { statuses = request_statuses; lanes = "front" ∷ []; categories = [] }

options-read : get_staff_queue_filter_options (λ j. ok settings) "dental" desk ≡ ok options
unfolding get_staff_queue_filter_options
options-read = refl

staff_queue_page-links_example :
    (rows : List Request) × (h : Html) × (staff_queue_page format server
        (λ j. ok settings)
        ann
        (once "needs_human")
        absent
        desk
      ≡ ok (rendered h))
    × (hrefs h ≡ "/api/auth/signout" ∷ "/app" ∷ map (λ (r : Request). request_link r.id) rows)
    × IsTop triage_order queue_limit
        (filter
          (λ r. r.org_id == "dental" && passes (page_filters options (once "needs_human") absent) r)
          desk.requests)
        rows
unfolding to_string_array
staff_queue_page-links_example =
    staff_queue_page-links format server (λ j. ok settings) ann (once "needs_human") absent desk
      member options is_member options-read
