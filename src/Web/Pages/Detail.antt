-- ===== src/Web/Pages/Detail.antt =====
-- web/src/app/app/[id]/page.tsx: one request, with its draft, the actions on it and its history.
pub mod Offered
pub mod Resolves
use frontdesk_intake.Web.Pages.Panel.{actions}
use frontdesk_intake.Web.Html.{
  titled, plain, Format, action, Html, Nodes, text, element, nothing, ◌▹◌, ◌⊕◌, attr, flag,
  approve_form, edit_form, reject_form, when, when_given, each, or_dash, Page, rendered, moved,
  blank,
}
use frontdesk_intake.Prelude.{
  ℕ, zero, suc, String, Bool, true, false, ◌&&◌, ◌||◌, not, Option, none, some, List, [], ◌∷◌, leb,
  nat_beq, is_empty, if◌then◌else◌,
}
use Prim.Native.Char.{code}
use Prim.Native.String.{[] as end, ◌∷◌ as char, ◌++◌ as str_append}
use frontdesk_intake.Database.Enums.{RequestUrgency, urgency_text, ActionKind}
use frontdesk_intake.Database.Rows.{Database}
use frontdesk_intake.Database.Tx.{Outcome, ok, err}
use frontdesk_intake.Database.Order.{Postgres}
use frontdesk_intake.Web.Guard.{Visitor, require_session_or_redirect}
use frontdesk_intake.Web.Staff.{is_resolved}
use frontdesk_intake.Web.RequestDetail.{
  RequestDetail, RequestDetailView, RequestDetailDraft, RequestDetailAction, RequestDetailRequest,
  CitationSnippet, get_request_detail,
}
use frontdesk_intake.Web.Components.{badge, status_badge}

abbrev pub action_kind_label : ActionKind → String
action_kind_label ActionKind.approve = "Approved"
action_kind_label ActionKind.edit = "Edited & approved"
action_kind_label ActionKind.reject = "Rejected"

unfoldable pub is_hex : ℕ → Bool
is_hex c = (leb 48 c && leb c 57) || (leb 65 c && leb c 70) || (leb 97 c && leb c 102)

-- `n` hexadecimal digits, and then the rest
unfoldable pub hex_run : ℕ → (String → Bool) → String → Bool
unfolding is_hex
hex_run zero rest s = rest s
hex_run (suc n) rest end = false
hex_run (suc n) rest (char c s) =
    let more = hex_run n rest s in if is_hex (code c) then more else false

abbrev dash : (String → Bool) → String → Bool
dash rest end = false
dash rest (char c s) = nat_beq (code c) 45 && rest s

-- UUID_RE
unfoldable pub is_uuid : String → Bool
unfolding hex_run
is_uuid =
    hex_run 8 (dash (hex_run 4 (dash (hex_run 4 (dash (hex_run 4 (dash (hex_run 12 is_empty))))))))

abbrev pub is_high : Option RequestUrgency → Bool
is_high (some RequestUrgency.high) = true
is_high _ = false

-- `value ? before + value + after : ""`
abbrev around : String → Option String → String → String
around before none after = ""
around before (some t) after = if is_empty t then "" else str_append before (str_append t after)

module _ (format : Format) where
  unfoldable pub heading : RequestDetailRequest → Nodes
  unfolding status_badge
  heading r =
      element "div" [] (plain "h1" r.subject ▹ status_badge r.status ▹ nothing)
      ▹ element "p" [] (
          text "Received "
          ▹ text (format.iso r.created_at)
          ▹ text (around " from " r.requester_name "")
          ▹ text (around " (" r.requester_email ")")
          ▹ nothing)
      ▹ nothing

  -- the stop sign above an open request of high urgency
  unfoldable pub urgency_notice : RequestDetailRequest → Nodes
  urgency_notice r = when (not (is_resolved r.status) && is_high r.urgency) (
      element "div" (attr "role" "status" ∷ []) (
        plain "p" "High urgency - read before approving."
        ▹ plain "p"
            "The classifier flagged this as time-sensitive. Check the draft against the original message; if the right answer is “call us now” or “go to urgent care”, edit the reply or handle it directly instead of approving as drafted."
        ▹ nothing)
      ▹ nothing)

  abbrev entry : String → String → Html
  entry name value = element "div" [] (plain "dt" name ▹ plain "dd" value ▹ nothing)

  abbrev urgency_of : Option RequestUrgency → Option String
  urgency_of none = none
  urgency_of (some u) = some (urgency_text u)

  abbrev confidence_of : Option RequestDetailDraft → Option String
  confidence_of none = none
  confidence_of (some d) = some d.confidence

  unfoldable pub classification : RequestDetailRequest → Option RequestDetailDraft → Html
  unfolding ◌⊕◌ urgency_text
  classification r latest = titled "classification-heading" "Classification" (
      element "dl" [] (
        entry "Category" (or_dash r.category)
        ▹ entry "Urgency" (or_dash (urgency_of r.urgency))
        ▹ entry "Lane" (or_dash r.lane)
        ▹ entry "Confidence" (or_dash (confidence_of latest))
        ▹ nothing)
      ▹ when_given r.summary (plain "p"))

  abbrev pub source : CitationSnippet → Html
  source c =
      element "details" [] (
        plain "summary" (str_append "[c:" (str_append c.chunk_id "]")) ▹ plain "p" c.text ▹ nothing)

  abbrev pub sources : List CitationSnippet → Nodes
  unfolding each
  sources [] = nothing
  sources (c ∷ cs) = element "div" [] (plain "p" "Sources" ▹ each source (c ∷ cs)) ▹ nothing

  unfoldable pub draft_reply : Option RequestDetailDraft → List CitationSnippet → Html
  unfolding each
  draft_reply none citations =
      titled "draft-heading" "Draft reply " (plain "p" "No draft yet." ▹ nothing)
  draft_reply (some d) citations =
      titled "draft-heading"
        (str_append "Draft reply (version " (str_append (format.decimal d.version) ")"))
        (plain "p" d.body ▹ sources citations)

  abbrev pub past_action : RequestDetailAction → Html
  unfolding badge ◌⊕◌
  past_action a = element "li" [] (
      element "div" [] (
        badge "bg-slate-100 text-slate-800" (text (action_kind_label a.kind))
        ▹ plain "span" (str_append a.actor_email (str_append " · " (format.iso a.created_at)))
        ▹ nothing)
      ▹ when_given a.reason (λ reason. plain "p" (str_append "Reason: " reason)))

  unfoldable pub history : List RequestDetailAction → Nodes
  unfolding each badge ◌⊕◌
  history [] = nothing
  history (a ∷ as') =
      titled "history-heading" "History" (element "ul" [] (each past_action (a ∷ as')) ▹ nothing)
      ▹ nothing

  unfoldable pub detail_page : RequestDetail → Html
  unfolding ◌⊕◌ heading urgency_notice classification draft_reply actions history
  detail_page v = element "main" [] (
      heading v.request
      ⊕ urgency_notice v.request
      ⊕ (titled "original-heading" "Original message" (plain "p" v.request.body ▹ nothing)
          ▹ classification v.request v.latest_draft
          ▹ draft_reply v.latest_draft v.citations
          ▹ nothing)
      ⊕ when (not (is_resolved v.request.status)) (actions v.request.id v.latest_draft ▹ nothing)
      ⊕ history v.action_history)

  abbrev pub shown : Outcome RequestDetailView → Outcome Page
  unfolding detail_page
  shown (err e) = err e
  shown (ok RequestDetailView.not_found) = ok Page.not_found
  shown (ok (RequestDetailView.found v)) = ok (rendered (detail_page v))

  -- the page of a visitor; one who is no member sees the layout's page instead
  unfoldable pub request_detail_page : Postgres → Option String → String → Database → Outcome Page
  unfolding detail_page is_uuid
  request_detail_page pg session id s = elim (require_session_or_redirect pg session s) [
    | Visitor.redirected url ↦ ok (moved url)
    | Visitor.not_a_member ↦ ok blank
    | Visitor.member m ↦
        if is_uuid id then shown (get_request_detail pg m.org_id id s) else ok Page.not_found
  ]
