-- ===== src/Web/Pages/Detail/Offered.antt =====
-- Which actions the detail page offers.
use frontdesk_intake.Web.Pages.Panel.{actions}
use frontdesk_intake.Web.Html.{
  when, Nodes, each, Html, ServerAction, when_given, nothing, ◌▹◌, ◌⊕◌, approve_form, edit_form,
  reject_form, Format,
}
use frontdesk_intake.Web.Pages.Offers.{offers_all-append, offers, offers_all, offers_all-each}
use frontdesk_intake.Web.RequestDetail.{
  CitationSnippet, RequestDetail, RequestDetailAction, RequestDetailDraft, RequestDetailRequest,
}
use frontdesk_intake.Web.Pages.Detail.{
  source, sources, heading, actions, classification, history, detail_page, draft_reply, is_high,
  past_action, urgency_notice,
}
use frontdesk_intake.Web.Staff.{is_resolved}
use frontdesk_intake.Web.Components.{badge, status_badge}
use mathlib.Core.List.{append-nil}
use frontdesk_intake.Prelude.{
  ◌&&◌, Bool, true, false, not, Option, none, some, String, List, [], ◌∷◌, ◌++◌, ◌≡◌, ◌∙◌, refl, ap,
  is_empty, if◌then◌else◌, Bool-cases, inl, inr,
}

abbrev pub approval : String → Option RequestDetailDraft → List ServerAction
approval id none = []
approval id (some d) = approve_form id ∷ []

-- an open request may be edited and rejected, and approved if it has a draft; a resolved one offers
-- nothing
abbrev pub offered : String → Bool → Option RequestDetailDraft → List ServerAction
offered id resolved latest =
    if resolved then [] else edit_form id ∷ approval id latest ++ reject_form id ∷ []

after_silent : (a b : List ServerAction) {c : List ServerAction} → a ≡ [] → b ≡ c → a ++ b ≡ c
after_silent a b h k = rw h k

when_given-silent :
    (o : Option String) (f : String → Html)
    → ((t : String) → offers (f t) ≡ [])
    → offers_all (when_given o f) ≡ []
when_given-silent none f h = refl
when_given-silent (some t) f h = elim (Bool-cases (is_empty t)) [
  | inl empty ↦ rw empty refl
  | inr given ↦ rw given (rw (h t) refl)
]

module _ (format : Format) where
  heading-silent : (r : RequestDetailRequest) → offers_all (heading format r) ≡ []
  unfolding heading status_badge badge
  heading-silent r = refl

  urgency_notice-silent : (r : RequestDetailRequest) → offers_all (urgency_notice format r) ≡ []
  unfolding urgency_notice
  urgency_notice-silent r = elim (Bool-cases (not (is_resolved r.status) && is_high r.urgency)) [
    | inl noticed ↦ rw noticed refl
    | inr quiet ↦ rw quiet refl
  ]

  classification-silent :
      (r : RequestDetailRequest) (latest : Option RequestDetailDraft)
      → offers (classification format r latest) ≡ []
  unfolding classification ◌⊕◌
  classification-silent r latest = when_given-silent r.summary _ (λ t. refl)

  sources-silent : (cs : List CitationSnippet) → offers_all (sources format cs) ≡ []
  unfolding each
  sources-silent [] = refl
  sources-silent (c ∷ cs) = rw (offers_all-each (source format) cs (λ x. refl)) refl

  draft_reply-silent :
      (latest : Option RequestDetailDraft) (cs : List CitationSnippet)
      → offers (draft_reply format latest cs) ≡ []
  unfolding draft_reply
  draft_reply-silent none cs = refl
  draft_reply-silent (some d) cs = sources-silent cs

  past_action-silent : (a : RequestDetailAction) → offers (past_action format a) ≡ []
  unfolding badge ◌⊕◌
  past_action-silent a = when_given-silent a.reason _ (λ t. refl)

  history-silent : (as' : List RequestDetailAction) → offers_all (history format as') ≡ []
  unfolding history each
  history-silent [] = refl
  history-silent (a ∷ as') =
      rw (past_action-silent a)
        (rw (offers_all-each (past_action format) as' past_action-silent) refl)

  actions-offers :
      (id : String) (latest : Option RequestDetailDraft)
      → offers (actions id latest) ≡ edit_form id ∷ approval id latest ++ reject_form id ∷ []
  unfolding actions
  actions-offers id none = refl
  actions-offers id (some d) = refl

  decided :
      (resolved : Bool) (id : String) (latest : Option RequestDetailDraft)
      → offers_all (when (not resolved) (actions id latest ▹ nothing)) ++ []
        ≡ offered id resolved latest
  decided true id latest = refl
  decided false id latest = append-nil _ ∙ append-nil _ ∙ actions-offers id latest

  -- the sections below the notice
  rest-offers :
      (v : RequestDetail) (sections : List ServerAction) (forms : Nodes)
      → sections ≡ []
      → forms
        ≡ when (not (is_resolved v.request.status)) (actions v.request.id v.latest_draft ▹ nothing)
      → sections ++ offers_all (forms ⊕ history format v.action_history)
        ≡ offered v.request.id (is_resolved v.request.status) v.latest_draft
  rest-offers v sections forms silent same = rw silent (
      offers_all-append forms (history format v.action_history)
      ∙ ap (λ h. offers_all forms ++ h) (history-silent v.action_history)
      ∙ ap (λ f. offers_all f ++ []) same
      ∙ decided (is_resolved v.request.status) v.request.id v.latest_draft)

  pub detail_page-offers :
      (v : RequestDetail)
      → offers (detail_page format v)
        ≡ offered v.request.id (is_resolved v.request.status) v.latest_draft
  unfolding detail_page
  detail_page-offers v =
      let c = classification-silent v.request v.latest_draft in
      let d = draft_reply-silent v.latest_draft v.citations in
      let forms =
        when (not (is_resolved v.request.status)) (actions v.request.id v.latest_draft ▹ nothing) in
      offers_all-append (urgency_notice format v.request) _
      ∙ after_silent _ _ (urgency_notice-silent v.request) (
          after_silent _ _ c
            (rest-offers v (offers (draft_reply format v.latest_draft v.citations)) forms d refl))
