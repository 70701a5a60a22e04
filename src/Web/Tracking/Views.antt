-- ===== src/Web/Tracking/Views.antt =====
-- The tracking page shows a reply exactly for approved requests, and staff decisions reach it.
use frontdesk_intake.Prelude.{
  String, ◌&&◌, Option, none, some, ◌≡◌, refl, sym, subst, ◌∙◌, ◌==◌, first, filter, filter-congr,
  first-map, arith, Option-cases, inl, inr,
}
use frontdesk_intake.Database.Enums.{RequestStatus, approved}
use frontdesk_intake.Database.Rows.{Database, Request}
use frontdesk_intake.Database.Tx.{ok, ◌>>=◌}
use frontdesk_intake.Database.Statements.{select_requests, visible}
use frontdesk_intake.Database.Client.{resolve_tracking, for_org, to_tracking_resolution}
use frontdesk_intake.Web.Tracking.{
  TrackingView, view_of, row_view, approved_view, or_empty, not_found, get_tracking_view,
  tracked_row,
}

-- the request that the token belongs to
abbrev pub token_request : String → Database → Option Request
token_request token s = first (filter (λ r. r.tracking_token == token) s.requests)

-- its row by identifier, in its org
abbrev pub own_row : Request → Database → Option Request
own_row r s = first (filter (λ x. x.org_id == r.org_id && x.id == r.id) s.requests)

abbrev pub page_of : Option Request → TrackingView
page_of none = not_found
page_of (some r) = view_of r.status r.reply_text

view_of-approved :
    (status : RequestStatus) (stored : Option String) (reply : String)
    → ok (view_of status stored) ≡ ok (approved_view reply)
    → (status ≡ approved) × (reply ≡ or_empty stored)
unfolding view_of
view_of-approved status stored reply h = ground arith

module _ (token : String) (s : Database) where
  pub unknown_token : token_request token s ≡ none → get_tracking_view token s ≡ ok not_found
  unfolding get_tracking_view resolve_tracking
  unknown_token h = ground arith

  tracked_row-eq :
      (r : Request) → tracked_row r.id r.org_id (some r.org_id) s ≡ (ok (own_row r s), s)
  unfolding tracked_row ◌>>=◌ select_requests
  tracked_row-eq r = rw (
      filter-congr (λ x. visible (some r.org_id) x.org_id && (x.org_id == r.org_id && x.id == r.id))
        (λ x. x.org_id == r.org_id && x.id == r.id) s.requests (λ x. ground arith))

  row_view-page : (o : Option Request) → row_view (ok o) ≡ ok (page_of o)
  row_view-page none = refl
  row_view-page (some r) = refl

  pub known_token :
      (r : Request)
      → token_request token s ≡ some r
      → get_tracking_view token s ≡ ok (page_of (own_row r s))
  unfolding get_tracking_view resolve_tracking for_org
  known_token r h =
      rw
        (
          first-map to_tracking_resolution (filter (λ x. x.tracking_token == token) s.requests) h,
          get_tracking_view,
        )
        (rw (tracked_row-eq r) (row_view-page (own_row r s)))

  -- A reply is shown only for a token whose request is approved, and it is the reply stored in its
  -- row.
  pub approved_view-source :
      (reply : String)
      → get_tracking_view token s ≡ ok (approved_view reply)
      → (r row : Request) × (token_request token s ≡ some r)
        × (own_row r s ≡ some row)
        × (row.status ≡ approved)
        × (reply ≡ or_empty row.reply_text)
  approved_view-source reply h = elim (Option-cases (token_request token s)) [
    | inl missing ↦ cc (unknown_token missing)
    | inr (r, found) ↦ elim (Option-cases (own_row r s)) [
      | inl gone ↦ cc (known_token r found, gone)
      | inr (row, here) ↦
          let shown : ok (view_of row.status row.reply_text) ≡ ok (approved_view reply) =
            subst (λ o. ok (page_of o) ≡ ok (approved_view reply)) here
              (sym (known_token r found) ∙ h) in
          let (is_approved, is_reply) = view_of-approved row.status row.reply_text reply shown in
          (r, row, found, here, is_approved, is_reply)
    ]
  ]
