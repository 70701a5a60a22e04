-- ===== src/Tests/WebRuns.antt =====
-- The queues of the small clinic.
use frontdesk_intake.Web.StaffQueue.{
  many, once, page_filters, to_string_array, StaffQueueFilterOptions, get_staff_queue, triage_order,
  passes, to_item, queue_limit,
}
use frontdesk_intake.Web.StaffQueue.Filters.{page_filters_unknown, no_filters}
use frontdesk_intake.Database.Enums.{status_text, request_statuses, RequestStatus}
use frontdesk_intake.Prelude.{
  true, ℕ, none, String, false, some, ◌&&◌, ◌==◌, List, [], ◌∷◌, ◌≡◌, refl, map, filter, All, trim,
  trim_start, trim_end, is_space, is_empty, ◌++◌, if◌then◌else◌,
}
use frontdesk_intake.Database.Rows.{Request}
use frontdesk_intake.Database.Tx.{ok}
use frontdesk_intake.Database.Limit.{IsTop}
use frontdesk_intake.Web.StaffQueue.Shown.{get_staff_queue-IsTop}
use frontdesk_intake.Web.DemoQueue.{get_demo_queue, created_desc, demo_queue_limit, to_demo_item}
use frontdesk_intake.Web.DemoQueue.Shown.{get_demo_queue-IsTop}
use frontdesk_intake.Web.Staff.Reads.{latest_in}
use frontdesk_intake.Web.RequestDetail.{RequestDetail, get_request_detail, found, detail_request}
use frontdesk_intake.Web.RequestDetail.Found.{get_request_detail-found, detail_of_draft, IsOwnChunk}
use frontdesk_intake.Web.Form.{FormData, text, absent, string_field}
use frontdesk_intake.Web.Env.{Environment, load_api_origin}
use frontdesk_intake.Web.PublicForm.{
  Post, Response, response, Submission, redirected, answer, is_ok, post_to, submit_public_request,
}
use frontdesk_intake.Web.PublicForm.Posts.{submit_public_request-redirected}
use frontdesk_intake.Tests.Server.{server}
use frontdesk_intake.Tests.Fixture.{request_row, clinic}

get_staff_queue-IsTop_example :
    (shown : List Request) × (get_staff_queue server "dental" no_filters clinic
      ≡ ok (map to_item shown))
    × IsTop triage_order queue_limit
        (filter (λ r. r.org_id == "dental" && passes no_filters r) clinic.requests)
        shown
get_staff_queue-IsTop_example = get_staff_queue-IsTop server "dental" no_filters clinic

get_demo_queue-IsTop_example :
    (shown : List Request) × (get_demo_queue server "dental" clinic ≡ ok (map to_demo_item shown))
    × IsTop created_desc demo_queue_limit (filter (λ r. r.org_id == "dental") clinic.requests) shown
get_demo_queue-IsTop_example = get_demo_queue-IsTop server "dental" clinic

abbrev options : StaffQueueFilterOptions
options = record { statuses = request_statuses; lanes = "front" ∷ []; categories = [] }

page_filters_unknown_example :
    get_staff_queue server "dental" (page_filters options (once "lost") (many ("back" ∷ []))) clinic
    ≡ get_staff_queue server "dental" no_filters clinic
unfolding to_string_array status_text
page_filters_unknown_example =
    page_filters_unknown server options (once "lost") (many ("back" ∷ [])) "dental" clinic refl refl

abbrev r1 : Request
r1 = request_row "dental" "r1" "t1" RequestStatus.drafted 50

get_request_detail-found_example :
    (v : RequestDetail) × (get_request_detail server "dental" "r1" clinic ≡ ok (found v))
    × (v.request ≡ detail_request r1)
    × (v.latest_draft
        ≡ detail_of_draft server "dental" "r1" clinic (latest_in server "dental" "r1" clinic))
    × All (IsOwnChunk server "dental" "r1" clinic) v.citations
get_request_detail-found_example = get_request_detail-found server "dental" "r1" clinic r1 refl

abbrev desk : Environment
desk name = if name == "API_ORIGIN" then some "http://api" else none

abbrev site : Post → Response
site p = response 201 "https://desk.test/t/fresh"

abbrev message_form : FormData
message_form name = if name == "requesterName" then absent else text " hello "

abbrev submitted : Submission × List Post
submitted = submit_public_request desk (λ s. s) site "bright-smile" message_form []

submitted-redirected : submitted ≡ (redirected "https://desk.test/t/fresh", submitted.1)
unfolding submit_public_request answer load_api_origin string_field trim trim_start trim_end
    is_space
submitted-redirected = refl

submit_public_request-redirected_example :
    (is_empty (string_field message_form "subject") ≡ false)
    × (is_empty (string_field message_form "body") ≡ false)
    × (is_empty (string_field message_form "cf-turnstile-response") ≡ false)
    × (origin : String) × (load_api_origin desk ≡ ok origin)
    × (submitted.1 ≡ [] ++ post_to desk (λ s. s) site "bright-smile" origin message_form ∷ [])
    × (status : ℕ) × (site (post_to desk (λ s. s) site "bright-smile" origin message_form)
        ≡ response status "https://desk.test/t/fresh")
    × (is_ok status ≡ true)
submit_public_request-redirected_example =
    submit_public_request-redirected desk (λ s. s) site "bright-smile" message_form [] submitted.1
      "https://desk.test/t/fresh" submitted-redirected
