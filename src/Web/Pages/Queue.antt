-- ===== src/Web/Pages/Queue.antt =====
-- web/src/app/app/page.tsx: the staff queue with its filters.
pub mod Linked
use frontdesk_intake.Prelude.{
  String, Bool, true, false, ◌||◌, Option, none, some, List, [], ◌∷◌, ◌==◌, any, map, if◌then◌else◌,
}
use Prim.Native.String.{◌++◌ as str_append}
use frontdesk_intake.Database.Enums.{status_text, urgency_text}
use frontdesk_intake.Database.Rows.{Database}
use frontdesk_intake.Database.Tx.{Outcome, ok, err}
use frontdesk_intake.Database.Order.{Postgres}
use frontdesk_intake.Web.Guard.{Visitor, AuthenticatedMembership, require_session_or_redirect}
use frontdesk_intake.Web.StaffQueue.{
  StaffQueueItem, StaffQueueFilterOptions, QueryParam, to_string_array, page_filters,
  get_staff_queue,
}
use frontdesk_intake.Web.StaffQueue.Options.{SettingsSchema, get_staff_queue_filter_options}
use frontdesk_intake.Web.Html.{
  Html, text, element, nothing, ◌▹◌, ◌⊕◌, attr, flag, when, each, or_dash, plain, Format, Page,
  rendered, moved, blank,
}
use frontdesk_intake.Web.Components.{status_badge}

-- one filter value, checked if the query names it
abbrev pub checkbox : String → List String → String → Html
checkbox name requested value = element "label" [] (
    element "input"
      (attr "type" "checkbox"
        ∷ attr "name" name
        ∷ attr "value" value
        ∷ (if any (λ v. v == value) requested then flag "checked" ∷ [] else []))
      nothing
    ▹ text value
    ▹ nothing)

abbrev pub lane_boxes : List String → List String → Html
unfolding each
lane_boxes requested [] = plain "p" "No lanes configured."
lane_boxes requested (lane ∷ lanes) =
    element "div" [] (each (checkbox "lane" requested) (lane ∷ lanes))

abbrev pub is_given {ℓ} : {A : Type ℓ} → List A → Bool
is_given [] = false
is_given (x ∷ xs) = true

unfoldable pub filter_form : StaffQueueFilterOptions → List String → List String → Html
unfolding each ◌⊕◌ status_text
filter_form options status lane = element "form" (attr "method" "get" ∷ attr "action" "/app" ∷ []) (
    element "div" [] (
      element "fieldset" [] (
        plain "legend" "Status"
        ▹ element "div" [] (each (checkbox "status" status) (map status_text options.statuses))
        ▹ nothing)
      ▹ element "fieldset" [] (plain "legend" "Lane" ▹ lane_boxes lane options.lanes ▹ nothing)
      ▹ nothing)
    ▹ element "div" [] (
        element "button" (attr "type" "submit" ∷ []) (text "Apply filters" ▹ nothing)
        ▹ when (is_given status || is_given lane)
            (element "a" (attr "href" "/app" ∷ []) (text "Clear filters" ▹ nothing) ▹ nothing))
    ▹ nothing)

module _ (format : Format) where
  abbrev pub urgency_cell : StaffQueueItem → String
  unfolding urgency_text
  urgency_cell item = elim item.urgency [ none ↦ "—" | some u ↦ urgency_text u ]

  abbrev pub queue_row : StaffQueueItem → Html
  unfolding status_badge
  queue_row item = element "tr" [] (
      element "td" [] (
        element "a" (attr "href" (str_append "/app/" item.id) ∷ []) (text item.subject ▹ nothing)
        ▹ nothing)
      ▹ element "td" [] (status_badge item.status ▹ nothing)
      ▹ plain "td" (urgency_cell item)
      ▹ plain "td" (or_dash item.lane)
      ▹ plain "td" (format.iso item.created_at)
      ▹ nothing)

  unfoldable pub queue_table : List StaffQueueItem → Html
  unfolding each status_badge urgency_text
  queue_table [] = plain "p" "No requests match this view."
  queue_table (item ∷ items) = element "table" [] (
      element "thead" [] (
        element "tr" [] (
          plain "th" "Subject"
          ▹ plain "th" "Status"
          ▹ plain "th" "Urgency"
          ▹ plain "th" "Lane"
          ▹ plain "th" "Received"
          ▹ nothing)
        ▹ nothing)
      ▹ element "tbody" [] (each queue_row (item ∷ items))
      ▹ nothing)

  unfoldable pub queue_page :
      AuthenticatedMembership
      → StaffQueueFilterOptions
      → List String
      → List String
      → List StaffQueueItem
      → Html
  unfolding filter_form queue_table
  queue_page membership options status lane queue = element "main" [] (
      element "div" [] (
        plain "h1" "Queue"
        ▹ element "a" (attr "href" "/api/auth/signout" ∷ []) (text "Sign out" ▹ nothing)
        ▹ nothing)
      ▹ plain "p" (str_append "Signed in as " membership.email)
      ▹ filter_form options status lane
      ▹ element "div" [] (queue_table queue ▹ nothing)
      ▹ nothing)

  abbrev pub queue_shown :
      AuthenticatedMembership
      → StaffQueueFilterOptions
      → QueryParam
      → QueryParam
      → Outcome (List StaffQueueItem)
      → Outcome Page
  unfolding queue_page to_string_array
  queue_shown m options status lane (err e) = err e
  queue_shown m options status lane (ok queue) =
      ok (rendered (queue_page m options (to_string_array status) (to_string_array lane) queue))

  module _ (pg : Postgres) (schema : SettingsSchema) where
    abbrev pub with_options :
        AuthenticatedMembership
        → QueryParam
        → QueryParam
        → Database
        → Outcome StaffQueueFilterOptions
        → Outcome Page
    unfolding queue_page to_string_array page_filters
    with_options m status lane s (err e) = err e
    with_options m status lane s (ok options) =
        queue_shown m options status lane
          (get_staff_queue pg m.org_id (page_filters options status lane) s)

    unfoldable pub staff_queue_page :
        Option String → QueryParam → QueryParam → Database → Outcome Page
    unfolding queue_page
    staff_queue_page session status lane s = elim (require_session_or_redirect pg session s) [
      | Visitor.redirected url ↦ ok (moved url)
      | Visitor.not_a_member ↦ ok blank
      | Visitor.member m ↦
          with_options m status lane s (get_staff_queue_filter_options schema m.org_id s)
    ]
