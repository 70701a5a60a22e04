-- ===== src/Web/Pages/Detail/Resolves.antt =====
-- The detail page beside the Server Actions that its forms call.
use frontdesk_intake.Database.Client.{resolve_membership, for_org, Membership}
use frontdesk_intake.Database.Statements.{apply_set}
use frontdesk_intake.Web.Staff.Effects.{approved_with, request_in-set, resolved_tables, snapshot_of}
use frontdesk_intake.Web.Staff.{
  finish, edit_approve_request_action, revalidate_queue_and_detail, is_request, is_resolved,
}
use frontdesk_intake.Web.Staff.Revision.{edit_tx-succeeds}
use frontdesk_intake.Web.Staff.Edit.{edited_snapshot, with_draft}
use frontdesk_intake.Web.Form.{string_field, FormData}
use frontdesk_intake.Web.Pages.Offers.{offers}
use frontdesk_intake.Web.Pages.Detail.Offered.{offered, detail_page-offers}
use frontdesk_intake.Web.Pages.Detail.{shown, detail_page, is_uuid, request_detail_page}
use frontdesk_intake.Web.Html.{Format, edit_form, Html, Page, ServerAction, rendered}
use frontdesk_intake.Web.Guard.{
  AuthenticatedMembership, action_member, page_visitor, require_membership_for_action,
  require_session_or_redirect, resolve_auth_state, Visitor,
}
use frontdesk_intake.Database.Order.{Postgres}
use frontdesk_intake.Web.RequestDetail.Found.{detail_of_draft, get_request_detail-found}
use frontdesk_intake.Web.Staff.Reads.{latest_in, request_in}
use frontdesk_intake.Prelude.{
  String, true, false, Option, none, some, List, [], ◌∷◌, ◌≡◌, ◌∙◌, refl, ap, subst, any, ◌==◌,
  first-filter, eq_iff, is_empty, arith,
}
use frontdesk_intake.Database.Enums.{edit}
use frontdesk_intake.Database.Rows.{Database, Request}
use frontdesk_intake.Database.Tx.{settle, Outcome, ok, Supply}

-- the page is rendered with these forms
abbrev pub Offers : Outcome Page → List ServerAction → Type 0
Offers page forms = (h : Html) × (page ≡ ok (rendered h)) × (offers h ≡ forms)

visitor-caller :
    (pg : Postgres) (session : Option String) (s : Database) (m : AuthenticatedMembership)
    → require_session_or_redirect pg session s ≡ Visitor.member m
    → require_membership_for_action pg session s ≡ ok m
unfolding require_session_or_redirect require_membership_for_action
visitor-caller pg session s m h =
    by_parts (resolve_auth_state pg session s).email (resolve_auth_state pg session s).membership h
  where
    by_parts :
        (email : Option String) (membership : Option Membership)
        → page_visitor email membership ≡ Visitor.member m
        → action_member email membership ≡ ok m
    by_parts none membership p = cc
    by_parts (some e) none p = cc
    by_parts (some e) (some n) p = cc

-- Who a visitor is depends on the members only.
same_visitor :
    (pg : Postgres) (session : Option String) (s t : Database)
    → t.org_members ≡ s.org_members
    → require_session_or_redirect pg session t ≡ require_session_or_redirect pg session s
unfolding require_session_or_redirect resolve_auth_state resolve_membership
same_visitor pg none s t h = refl
same_visitor pg (some email) s t h = rw (h, resolve_membership) refl

module _ (pg : Postgres) (format : Format) (session : Option String) (id : String)
    (m : AuthenticatedMembership) where
  -- A member who opens the page of a request of their org by its identifier is offered to edit and to
  -- reject it, and to approve it exactly if it has a draft, as long as it is neither approved nor
  -- rejected; of a decided request the page offers nothing.
  pub request_detail_page-Offers :
      (s : Database) (r : Request)
      → require_session_or_redirect pg session s ≡ Visitor.member m
      → is_uuid id ≡ true
      → request_in m.org_id id s ≡ some r
      → Offers (request_detail_page format pg session id s) (
          offered id
            (is_resolved r.status)
            (detail_of_draft pg m.org_id id s (latest_in pg m.org_id id s)))
  unfolding request_detail_page
  request_detail_page-Offers s r member uuid here =
      let (v, shown_v, is_r, latest, own) = get_request_detail-found pg m.org_id id s r here in
      let same_id : r.id ≡ id =
        ground (arith, first-filter (is_request m.org_id id) s.requests here, eq_iff r.id id) in
      (
        detail_page format v,
        rw (member, request_detail_page)
            (rw (uuid, request_detail_page) (ap (shown format) shown_v)),
        detail_page-offers format v
            ∙ ap (λ x. offered x.id (is_resolved x.status) v.latest_draft) is_r
            ∙ ap (λ l. offered r.id (is_resolved r.status) l) latest
            ∙ ap
                (λ i.
                  offered i (is_resolved r.status)
                    (detail_of_draft pg m.org_id id s (latest_in pg m.org_id id s)))
                same_id,
      )

  module _ (supply : Supply) (form : FormData) (s : Database) (r : Request) where
    -- the tables after the edit
    abbrev pub after_edit : Database
    after_edit =
        resolved_tables supply m m.org_id id (approved_with supply (string_field form "body")) edit
          (snapshot_of r (latest_in pg m.org_id id s))
          (edited_snapshot pg supply m m.org_id id (string_field form "body") s) none
          (with_draft pg supply m m.org_id id (string_field form "body") s)

    edit_succeeds :
        require_membership_for_action pg session s ≡ ok m
        → request_in m.org_id id s ≡ some r
        → is_resolved r.status ≡ false
        → is_empty (string_field form "body") ≡ false
        → any (λ d. d.id == supply.uuid 1) s.drafts ≡ false
        → any (λ a. a.id == supply.uuid 0) s.actions ≡ false
        → edit_approve_request_action pg supply session id form s ≡ (
          ok (record { revalidated = revalidate_queue_and_detail id; redirect = "/app" }),
          after_edit,
        )
    unfolding edit_approve_request_action for_org
    edit_succeeds member here open' given new_draft new_action = rw member (
        rw given (
          ap (λ x. finish id (settle s x))
            (edit_tx-succeeds pg supply m m.org_id id (string_field form "body") s r here open'
              new_draft new_action)))

    -- An open request never gets stuck: a member of its org finds the edit form on its page, and
    -- submitting it with a reply ends in the staff queue with the request decided, after which the
    -- page of the request offers no action. The identifiers that the two new rows draw are assumed
    -- to be new.
    pub request_detail_page-resolves :
        require_session_or_redirect pg session s ≡ Visitor.member m
        → is_uuid id ≡ true
        → request_in m.org_id id s ≡ some r
        → is_resolved r.status ≡ false
        → is_empty (string_field form "body") ≡ false
        → any (λ d. d.id == supply.uuid 1) s.drafts ≡ false
        → any (λ a. a.id == supply.uuid 0) s.actions ≡ false
        → (more : List ServerAction) × (t : Database) × Offers
            (request_detail_page format pg session id s)
            (edit_form id ∷ more)
          × (edit_approve_request_action pg supply session id form s ≡ (
            ok (record { revalidated = revalidate_queue_and_detail id; redirect = "/app" }),
            t,
          ))
          × Offers (request_detail_page format pg session id t) []
    request_detail_page-resolves member uuid here open' given new_draft new_action = (
      _,
      after_edit,
      subst
          (λ b.
            Offers (request_detail_page format pg session id s)
              (offered id b (detail_of_draft pg m.org_id id s (latest_in pg m.org_id id s))))
          open' (request_detail_page-Offers s r member uuid here),
      edit_succeeds (visitor-caller pg session s m member) here open' given new_draft new_action,
      request_detail_page-Offers after_edit
          (apply_set (approved_with supply (string_field form "body")) r)
          (same_visitor pg session s after_edit refl ∙ member) uuid
          (request_in-set m.org_id id (approved_with supply (string_field form "body")) s here),
    )
