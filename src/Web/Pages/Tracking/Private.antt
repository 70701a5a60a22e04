-- ===== src/Web/Pages/Tracking/Private.antt =====
-- What the public page of an undecided request lets its visitor tell apart.
use frontdesk_intake.Web.Html.{Format, Page, rendered}
use frontdesk_intake.Web.Tracking.Views.{known_token, own_row, page_of, token_request}
use frontdesk_intake.Web.Tracking.{status_description, status_label, view_of, NonApprovedStatus}
use frontdesk_intake.Web.Pages.Tracking.{status_page, tracking_page, tracking_shown}
use frontdesk_intake.Prelude.{
  zero, suc, ℕ, String, Bool, true, false, Option, some, ◌≡◌, ◌∙◌, refl, ap, sym,
}
use frontdesk_intake.Database.Enums.{
  RequestStatus, received, triaging, drafted, needs_human, approved, rejected,
}
use frontdesk_intake.Database.Rows.{Database, Request}
use frontdesk_intake.Database.Tx.{Outcome, ok}

-- not picked up, in work, approved, declined
abbrev pub stage : RequestStatus → ℕ
stage received = 0
stage triaging = 1
stage drafted = 1
stage needs_human = 1
stage approved = 2
stage rejected = 3

abbrev pub is_approved : RequestStatus → Bool
is_approved approved = true
is_approved _ = false

module _ (format : Format) where
  stage_page : ℕ → Outcome Page
  stage_page zero = ok (rendered (status_page format NonApprovedStatus.received))
  stage_page (suc zero) = ok (rendered (status_page format NonApprovedStatus.triaging))
  stage_page (suc (suc n)) = ok (rendered (status_page format NonApprovedStatus.rejected))

  stage_page-view_of :
      (status : RequestStatus) (reply : Option String)
      → is_approved status ≡ false
      → tracking_shown format (ok (view_of status reply)) ≡ stage_page (stage status)
  unfolding view_of stage_page status_page status_label status_description tracking_shown
  stage_page-view_of received reply h = refl
  stage_page-view_of triaging reply h = refl
  stage_page-view_of drafted reply h = refl
  stage_page-view_of needs_human reply h = refl
  stage_page-view_of approved reply h = cc
  stage_page-view_of rejected reply h = refl

  tracking_page-stage :
      (token : String) (s : Database) (r row : Request)
      → token_request token s ≡ some r
      → own_row r s ≡ some row
      → is_approved row.status ≡ false
      → tracking_page format token s ≡ stage_page (stage row.status)
  unfolding tracking_page
  tracking_page-stage token s r row tracked here open' =
      ap (tracking_shown format) (known_token token s r tracked ∙ ap (λ o. ok (page_of o)) here)
      ∙ stage_page-view_of row.status row.reply_text open'

  -- The public pages of two requests that are not approved and stand at the same stage are the same
  -- page, in whatever databases: drafts, citations, classification, reply text, requester and org do
  -- not show, and neither does whether triage is running, has drafted or has asked for a person.
  pub tracking_page-private :
      (token token' : String) (s s' : Database) (r r' row row' : Request)
      → token_request token s ≡ some r
      → own_row r s ≡ some row
      → is_approved row.status ≡ false
      → token_request token' s' ≡ some r'
      → own_row r' s' ≡ some row'
      → is_approved row'.status ≡ false
      → stage row.status ≡ stage row'.status
      → tracking_page format token s ≡ tracking_page format token' s'
  tracking_page-private token token' s s' r r' row row' tracked here open' tracked' here' open''
        same =
      tracking_page-stage token s r row tracked here open'
      ∙ ap stage_page same
      ∙ sym (tracking_page-stage token' s' r' row' tracked' here' open'')
