-- ===== src/Web/Tracking/Decisions.antt =====
-- What staff decide is what the requester's page shows.
use frontdesk_intake.Prelude.{
  Option, String, true, none, some, List, ◌≡◌, refl, sym, ap, subst, ◌∙◌, ◌==◌, eq_iff, first,
  filter, first-filter, first-filter-update_where, if◌then◌else◌, arith,
}
use frontdesk_intake.Database.Rows.{Draft, Database, Request}
use frontdesk_intake.Database.Tx.{Outcome, ok}
use frontdesk_intake.Database.Order.{Postgres}
use frontdesk_intake.Database.Statements.{RequestSet, apply_set, or_keep}
use frontdesk_intake.Web.Form.{string_field}
use frontdesk_intake.Web.Guard.{AuthenticatedMembership}
use frontdesk_intake.Web.Staff.{is_request, Navigation}
use frontdesk_intake.Web.Staff.Calls.{StaffCall, approve_call, edit_call, reject_call, call}
use frontdesk_intake.Web.Staff.Isolation.{caller}
use frontdesk_intake.Web.Staff.Audit.{target}
use frontdesk_intake.Web.Staff.Approve.{Approved}
use frontdesk_intake.Web.Staff.Edit.{Edited}
use frontdesk_intake.Web.Staff.Reject.{Rejected}
use frontdesk_intake.Web.Staff.Success.{
  approve_request_action-ok, edit_approve_request_action-ok, reject_request_action-ok,
}
use frontdesk_intake.Web.Staff.Reads.{request_in, latest_in}
use frontdesk_intake.Web.Staff.Effects.{set_request, request_in-set, approved_with, rejected_now}
use frontdesk_intake.Web.Tracking.{
  approved_view, status_view, rejected, not_found, TrackingView, view_of, get_tracking_view,
}
use frontdesk_intake.Web.Tracking.Views.{token_request, own_row, page_of, known_token}

module _ (o id : String) (set : RequestSet) (s t : Database) (r : Request)
    (found : request_in o id s ≡ some r) (tracked : token_request r.tracking_token s ≡ some r)
    (rows : t.requests ≡ set_request o id set s.requests) where
  is_found : is_request o id r ≡ true
  is_found = first-filter (is_request o id) s.requests found

  tracked_after : token_request r.tracking_token t ≡ some (apply_set set r)
  tracked_after = rw rows (
      first-filter-update_where (λ x. x.tracking_token == r.tracking_token) (is_request o id)
        (apply_set set) s.requests (λ y. refl) tracked
      ∙ ap (λ b. some (if b then apply_set set r else r)) is_found)

  own_after : own_row (apply_set set r) t ≡ some (apply_set set r)
  own_after =
      let same_org : r.org_id ≡ o = ground (arith, is_found, eq_iff r.org_id o) in
      let same_id : r.id ≡ id = ground (arith, is_found, eq_iff r.org_id o, eq_iff r.id id) in
      subst (λ x. first (filter (is_request x r.id) t.requests) ≡ some (apply_set set r))
        (sym same_org)
        (subst (λ x. first (filter (is_request o x) t.requests) ≡ some (apply_set set r))
          (sym same_id)
          (ap (λ (x : List Request). first (filter (is_request o id) x)) rows
            ∙ request_in-set o id set s found))

  page_after :
      get_tracking_view r.tracking_token t
      ≡ ok (view_of set.status (or_keep set.reply_text r.reply_text))
  page_after =
      known_token r.tracking_token t (apply_set set r) tracked_after
      ∙ ap (λ x. ok (page_of x)) own_after

abbrev approved_draft_view : Option Draft → TrackingView
approved_draft_view none = not_found
approved_draft_view (some d) = approved_view d.body

-- What the page shows after a decision: the current draft as it stood, or the text that staff
-- wrote, or the neutral status of a rejection.
abbrev pub decided_view : Postgres → String → StaffCall → Database → TrackingView
decided_view pg org_id (approve_call supply session id) s =
    approved_draft_view (latest_in pg org_id id s)
decided_view pg org_id (edit_call supply session id form) s =
    approved_view (string_field form "body")
decided_view pg org_id (reject_call supply session id form) s = status_view rejected

same_member :
    {m n : AuthenticatedMembership} (c : Outcome AuthenticatedMembership)
    → c ≡ ok m
    → c ≡ ok n
    → m ≡ n
same_member c h k = cc

same_request : {x y : Request} (c : Option Request) → c ≡ some x → c ≡ some y → x ≡ y
same_request c h k = cc

-- After a successful decision of a member on a request of their org, which the request's tracking
-- token leads to, the page of that token shows the decision.
pub decision-shown :
    (pg : Postgres) (c : StaffCall) (s t : Database) (nav : Navigation)
    (m : AuthenticatedMembership) (r : Request)
    → call pg c s ≡ (ok nav, t)
    → caller pg c s ≡ ok m
    → request_in m.org_id (target c) s ≡ some r
    → token_request r.tracking_token s ≡ some r
    → get_tracking_view r.tracking_token t ≡ ok (decided_view pg m.org_id c s)
unfolding call caller view_of
decision-shown pg (approve_call supply session id) s t nav m r h is_member found tracked =
    let (n, is_n, done') = approve_request_action-ok pg supply session id s t nav h in
    let done =
      subst (λ x. Approved pg supply x x.org_id id s t) (same_member _ is_n is_member) done' in
    page_after m.org_id id (approved_with supply done.draft.body) s t r found tracked
      (ap (λ (d : Database). d.requests) done.tables)
    ∙ ap (λ x. ok (approved_draft_view x)) (sym done.latest)
decision-shown pg (edit_call supply session id form) s t nav m r h is_member found tracked =
    let (n, is_n, given, done') =
      edit_approve_request_action-ok pg supply session id s t nav form h in
    let done =
      subst (λ x. Edited pg supply x x.org_id id (string_field form "body") s t)
        (same_member _ is_n is_member) done' in
    page_after m.org_id id (approved_with supply (string_field form "body")) s t r found tracked
      (ap (λ (d : Database). d.requests) done.tables)
decision-shown pg (reject_call supply session id form) s t nav m r h is_member found tracked =
    let (n, is_n, given, done') = reject_request_action-ok pg supply session id s t nav form h in
    let done =
      subst (λ x. Rejected pg supply x x.org_id id s (string_field form "reason") t)
        (same_member _ is_n is_member) done' in
    page_after m.org_id id (rejected_now supply) s t r found tracked
      (ap (λ (d : Database). d.requests) done.tables)
