-- ===== src/Tests/StaffRuns.antt =====
-- Staff actions at the small clinic.
use frontdesk_intake.Prelude.{
  true, List, is_space, trim_end, trim_start, trim, none, some, [], ◌∷◌, ◌≡◌, refl, any,
}
use frontdesk_intake.Database.Enums.{RequestStatus, staff, approve, edit}
use frontdesk_intake.Database.Rows.{Database, Request, Draft}
use frontdesk_intake.Database.Tx.{ok, err, thrown, ◌>>=◌, pure, or_throw, throw}
use frontdesk_intake.Database.Statements.{
  select_requests, select_drafts, insert_draft, insert_action, update_requests, draft_refusal,
  action_refusal,
}
use frontdesk_intake.Database.Client.{resolve_tracking, for_org, resolve_membership}
use frontdesk_intake.Web.Form.{string_field}
use frontdesk_intake.Web.Guard.{
  AuthenticatedMembership, require_membership_for_action, resolve_auth_state,
}
use frontdesk_intake.Web.Tracking.{or_empty, get_tracking_view, approved_view, tracked_row, view_of}
use frontdesk_intake.Web.Tracking.Views.{approved_view-source, token_request, own_row}
use frontdesk_intake.Web.Tracking.Decisions.{decision-shown, decided_view}
use frontdesk_intake.Web.Staff.{
  Navigation, approve_request_action, edit_approve_request_action, reject_request_action,
  approve_tx, edit_tx, reject_tx, load_current_state, latest_draft, assert_not_resolved,
  record_action,
}
use frontdesk_intake.Web.Staff.Calls.{
  StaffCall, approve_call, edit_call, reject_call, call, call_all,
}
use frontdesk_intake.Web.Staff.Isolation.{caller, call-SameOutside, call-err, SameOutsideMember}
use frontdesk_intake.Web.Staff.Audit.{Audited, call-Audited}
use frontdesk_intake.Web.Staff.Final.{call_all-final}
use frontdesk_intake.Web.Staff.Leaves.{SameRequest}
use frontdesk_intake.Web.Staff.Approve.{approve_tx-succeeds, approved_snapshot}
use frontdesk_intake.Web.Staff.Revision.{edit_tx-succeeds, latest_in-edited}
use frontdesk_intake.Web.Staff.Reads.{latest_in}
use frontdesk_intake.Web.Staff.Effects.{resolved_tables, approved_with, snapshot_of}
use frontdesk_intake.Web.Staff.Edit.{edited_version, edited_draft, edited_snapshot, with_draft}
use frontdesk_intake.Database.EvalExport.{CandidateExample, export_candidates}
use frontdesk_intake.Database.EvalExport.Corrections.{export_candidates-edited, is_correction}
use frontdesk_intake.Tests.Server.{server}
use frontdesk_intake.Tests.Fixture.{clinic, supply, ann, reply_form, request_row, draft_row}

abbrev member : AuthenticatedMembership
member = record { org_id = "dental"; role = staff; email = "ann@dental.test" }

abbrev approve_r1 : StaffCall
approve_r1 = approve_call supply ann "r1"

abbrev edit_r1 : StaffCall
edit_r1 = edit_call supply ann "r1" reply_form

abbrev reject_r1 : StaffCall
reject_r1 = reject_call supply ann "r1" reply_form

abbrev navigation : Navigation
navigation = record { revalidated = "/app" ∷ "/app/r1" ∷ []; redirect = "/app" }

abbrev after : StaffCall → Database
after c = (call server c clinic).1

approve_r1-ok : call server approve_r1 clinic ≡ (ok navigation, after approve_r1)
unfolding call approve_request_action edit_approve_request_action reject_request_action
    require_membership_for_action resolve_auth_state resolve_membership for_org approve_tx edit_tx
    reject_tx load_current_state latest_draft select_requests select_drafts assert_not_resolved
    update_requests record_action insert_action action_refusal insert_draft draft_refusal
    string_field trim trim_start trim_end is_space ◌>>=◌ pure or_throw throw
approve_r1-ok = refl

edit_r1-ok : call server edit_r1 clinic ≡ (ok navigation, after edit_r1)
unfolding call approve_request_action edit_approve_request_action reject_request_action
    require_membership_for_action resolve_auth_state resolve_membership for_org approve_tx edit_tx
    reject_tx load_current_state latest_draft select_requests select_drafts assert_not_resolved
    update_requests record_action insert_action action_refusal insert_draft draft_refusal
    string_field trim trim_start trim_end is_space ◌>>=◌ pure or_throw throw
edit_r1-ok = refl

reject_r1-ok : call server reject_r1 clinic ≡ (ok navigation, after reject_r1)
unfolding call approve_request_action edit_approve_request_action reject_request_action
    require_membership_for_action resolve_auth_state resolve_membership for_org approve_tx edit_tx
    reject_tx load_current_state latest_draft select_requests select_drafts assert_not_resolved
    update_requests record_action insert_action action_refusal insert_draft draft_refusal
    string_field trim trim_start trim_end is_space ◌>>=◌ pure or_throw throw
reject_r1-ok = refl

member-ok : caller server edit_r1 clinic ≡ ok member
unfolding caller require_membership_for_action resolve_auth_state resolve_membership
member-ok = refl

-- the clinic with its request approved
abbrev approved_r1 : Request
approved_r1 = record (request_row "dental" "r1" "t1" RequestStatus.approved 50) {
  reply_text = some "Come at nine.";
  resolved_at = some 100;
}

abbrev resolved_clinic : Database
resolved_clinic = record clinic { requests = approved_r1 ∷ [] }

call_all-final_example :
    SameRequest "dental" "r1" resolved_clinic
      (call_all server (reject_r1 ∷ edit_r1 ∷ []) resolved_clinic)
call_all-final_example =
    call_all-final server "dental" "r1" (reject_r1 ∷ edit_r1 ∷ []) resolved_clinic
      (approved_r1, refl, refl)

call-Audited_example :
    (m : AuthenticatedMembership) × (caller server edit_r1 clinic ≡ ok m)
    × Audited server m "r1" edit none clinic (after edit_r1)
call-Audited_example = call-Audited server edit_r1 clinic (after edit_r1) navigation edit_r1-ok

decision-shown_example :
    get_tracking_view "t1" (after edit_r1) ≡ ok (decided_view server "dental" edit_r1 clinic)
decision-shown_example =
    decision-shown server edit_r1 clinic (after edit_r1) navigation member
      (request_row "dental" "r1" "t1" RequestStatus.drafted 50) edit_r1-ok member-ok refl refl

call-SameOutside_example :
    SameOutsideMember (caller server reject_r1 clinic) clinic (after reject_r1)
call-SameOutside_example = call-SameOutside server reject_r1 clinic

unsigned_call-err :
    (call server (approve_call supply none "r1") clinic).0
    ≡ err (thrown "Not authenticated, or not a member of any organization.")
unfolding call approve_request_action edit_approve_request_action reject_request_action
    require_membership_for_action resolve_auth_state resolve_membership for_org approve_tx edit_tx
    reject_tx load_current_state latest_draft select_requests select_drafts assert_not_resolved
    update_requests record_action insert_action action_refusal insert_draft draft_refusal
    string_field trim trim_start trim_end is_space ◌>>=◌ pure or_throw throw
unsigned_call-err = refl

call-err_example : (call server (approve_call supply none "r1") clinic).1 ≡ clinic
call-err_example =
    call-err server (approve_call supply none "r1") clinic
      (thrown "Not authenticated, or not a member of any organization.") unsigned_call-err

shown_reply : get_tracking_view "t1" resolved_clinic ≡ ok (approved_view "Come at nine.")
unfolding get_tracking_view resolve_tracking for_org tracked_row select_requests view_of ◌>>=◌ pure
shown_reply = refl

approved_view-source_example :
    (r row : Request) × (token_request "t1" resolved_clinic ≡ some r)
    × (own_row r resolved_clinic ≡ some row)
    × (row.status ≡ RequestStatus.approved)
    × ("Come at nine." ≡ or_empty row.reply_text)
approved_view-source_example = approved_view-source "t1" resolved_clinic "Come at nine." shown_reply

abbrev r1 : Request
r1 = request_row "dental" "r1" "t1" RequestStatus.drafted 50

abbrev d1 : Draft
d1 = draft_row "dental" "r1" "d1" 1 "Come at nine."

edit_tx-succeeds_example :
    edit_tx server supply member "r1" "Come at ten." "dental" (some "dental") clinic ≡ (
      ok tt,
      resolved_tables supply member "dental" "r1"
          (approved_with supply "Come at ten.")
          edit
          (snapshot_of r1 (latest_in server "dental" "r1" clinic))
          (edited_snapshot server supply member "dental" "r1" "Come at ten." clinic)
          none
          (with_draft server supply member "dental" "r1" "Come at ten." clinic),
    )
edit_tx-succeeds_example =
    edit_tx-succeeds server supply member "dental" "r1" "Come at ten." clinic r1 refl refl refl refl

approve_tx-succeeds_example :
    approve_tx server supply member "r1" "dental" (some "dental") clinic ≡ (
      ok tt,
      resolved_tables supply member "dental" "r1"
          (approved_with supply "Come at nine.")
          approve
          (snapshot_of r1 (some d1))
          (approved_snapshot server supply member "dental" "r1" clinic d1)
          none
          clinic,
    )
approve_tx-succeeds_example =
    approve_tx-succeeds server supply member "dental" "r1" clinic r1 d1 refl refl refl refl

abbrev d2 : Draft
d2 = draft_row "dental" "r1" "u1" 2 "Come at ten."

latest_in-edited_example :
    ((edited_draft server supply member "dental" "r1" "Come at ten." clinic).body ≡ "Come at ten.")
    × ((edited_draft server supply member "dental" "r1" "Come at ten." clinic).version
        ≡ edited_version server supply member "dental" "r1" "Come at ten." clinic)
latest_in-edited_example =
    latest_in-edited server supply member "dental" "r1" "Come at ten." clinic
      (edited_draft server supply member "dental" "r1" "Come at ten." clinic)
      (with_draft server supply member "dental" "r1" "Come at ten." clinic) refl refl

export_candidates-edited_example :
    (m : AuthenticatedMembership) × (caller server edit_r1 clinic ≡ ok m)
    × (cs : List CandidateExample) × (export_candidates server
          (λ a b. true)
          m.org_id
          (after edit_r1)
        ≡ ok cs)
    × (any (is_correction m (supply.uuid 0) "r1" (string_field reply_form "body")) cs ≡ true)
export_candidates-edited_example =
    export_candidates-edited server (λ a b. true) supply ann "r1" reply_form clinic (after edit_r1)
      navigation edit_r1-ok
