-- ===== src/Web/Pages/Tracking.antt =====
-- web/src/app/t/[token]/page.tsx: the public status page of a request.
pub mod Private
use frontdesk_intake.Web.Html.{
  Format, Html, Nodes, text, element, nothing, ◌▹◌, ◌⊕◌, attr, when, plain, titled, Page, rendered,
}
use frontdesk_intake.Prelude.{ℕ, ◌+◌, String, Bool, true, false, not, List, [], ◌∷◌}
use frontdesk_intake.Database.Rows.{Database}
use frontdesk_intake.Database.Tx.{Outcome, ok, err}
use frontdesk_intake.Web.Tracking.{
  NonApprovedStatus, TrackingView, status_view, approved_view, get_tracking_view, status_label,
  status_description,
}
use frontdesk_intake.Web.Components.{badge}

pub record NextStep : Type 0 where
  pub title : String
  pub detail : String

abbrev pub next_steps : List NextStep
next_steps =
    record {
      title = "Triage.";
      detail = "Your message is sorted and matched against this business's own documents.";
    }
    ∷ record {
      title = "Draft.";
      detail = "A reply is drafted from those documents, with the sources it drew on attached.";
    }
    ∷ record {
      title = "Human review.";
      detail = "Someone at the business reads the draft and edits, approves, or rejects it.";
    }
    ∷ record { title = "Reply."; detail = "Once approved, the reply appears on this page." }
    ∷ []

abbrev pub is_rejected : NonApprovedStatus → Bool
is_rejected NonApprovedStatus.rejected = true
is_rejected _ = false

module _ (format : Format) where
  -- the steps, counted from 1
  unfoldable pub steps : ℕ → List NextStep → Nodes
  steps i [] = nothing
  steps i (step ∷ rest) =
      element "li" [] (
        element "span" (attr "aria-hidden" "true" ∷ []) (text (format.decimal (i + 1)) ▹ nothing)
        ▹ element "span" []
            (plain "span" step.title ▹ text " " ▹ plain "span" step.detail ▹ nothing)
        ▹ nothing)
      ▹ steps (i + 1) rest

  unfoldable pub approved_page : String → Html
  unfolding badge
  approved_page reply_text = element "main" [] (
      plain "h1" "Your request"
      ▹ plain "p" "Here is the reply from the team."
      ▹ element "div" []
          (badge "bg-green-100 text-green-800" (text "Approved") ▹ plain "p" reply_text ▹ nothing)
      ▹ plain "p"
          "This reply was drafted from the business's own documents and approved by a person before it was sent. Keep this page's address if you want to read it again later - it is the only link to it."
      ▹ nothing)

  unfoldable pub status_page : NonApprovedStatus → Html
  unfolding badge status_label status_description steps ◌⊕◌
  status_page status = element "main" [] (
      (plain "h1" "Your request"
        ▹ plain "p" "Thanks - your message is with the team."
        ▹ element "div" [] (
            badge "bg-slate-100 text-slate-800" (text (status_label status))
            ▹ plain "p" (status_description status)
            ▹ nothing)
        ▹ nothing)
      ⊕ when (not (is_rejected status)) (
          titled "next-steps-heading" "What happens next"
            (element "ol" [] (steps 0 next_steps) ▹ nothing)
          ▹ nothing)
      ⊕ (plain "p"
            "Bookmark this page to check back - it is the only link to your request, and we will not email you a copy."
          ▹ nothing))

  abbrev pub tracking_shown : Outcome TrackingView → Outcome Page
  unfolding approved_page status_page
  tracking_shown (err e) = err e
  tracking_shown (ok TrackingView.not_found) = ok Page.not_found
  tracking_shown (ok (approved_view reply_text)) = ok (rendered (approved_page reply_text))
  tracking_shown (ok (status_view status)) = ok (rendered (status_page status))

  unfoldable pub tracking_page : String → Database → Outcome Page
  unfolding approved_page status_page
  tracking_page token s = tracking_shown (get_tracking_view token s)
