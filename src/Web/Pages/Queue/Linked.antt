-- ===== src/Web/Pages/Queue/Linked.antt =====
-- Where the staff queue page leads.
use frontdesk_intake.Web.Pages.Queue.{
  with_options, queue_page, queue_row, staff_queue_page, checkbox, filter_form, is_given,
  lane_boxes, queue_table, queue_shown,
}
use frontdesk_intake.Web.Guard.{AuthenticatedMembership, require_session_or_redirect, Visitor}
use frontdesk_intake.Web.Html.{
  Html, each, Format, text, element, nothing, ◌▹◌, rendered, attr, when,
}
use frontdesk_intake.Database.Limit.{IsTop}
use frontdesk_intake.Database.Order.{Postgres}
use frontdesk_intake.Web.StaffQueue.{
  QueryParam, page_filters, queue_limit, to_item, to_string_array, triage_order,
  StaffQueueFilterOptions, StaffQueueItem, passes,
}
use frontdesk_intake.Web.StaffQueue.Options.{SettingsSchema, get_staff_queue_filter_options}
use frontdesk_intake.Web.StaffQueue.Shown.{get_staff_queue-IsTop}
use frontdesk_intake.Web.Pages.Links.{hrefs_all, hrefs_all-each, hrefs, hrefs_all-none}
use frontdesk_intake.Database.Enums.{status_text}
use frontdesk_intake.Web.Components.{badge, status_badge}
use mathlib.Core.List.{append-nil}
use frontdesk_intake.Prelude.{
  String, Bool, true, false, ◌&&◌, ◌||◌, ◌==◌, Option, List, [], ◌∷◌, ◌++◌, ◌≡◌, ◌∙◌, refl, ap, map,
  filter, if◌then◌else◌,
}
use Prim.Native.String.{◌++◌ as str_append}
use frontdesk_intake.Database.Rows.{Database, Request}
use frontdesk_intake.Database.Tx.{ok}

abbrev pub clear_link : List String → List String → List String
clear_link status lane = if is_given status || is_given lane then "/app" ∷ [] else []

abbrev pub request_link : String → String
request_link id = str_append "/app/" id

checkbox-silent :
    (name : String) (requested : List String) (value : String)
    → hrefs (checkbox name requested value) ≡ []
checkbox-silent name requested value = refl

lane_boxes-silent : (requested lanes : List String) → hrefs (lane_boxes requested lanes) ≡ []
unfolding each
lane_boxes-silent requested [] = refl
lane_boxes-silent requested (lane ∷ lanes) =
    hrefs_all-none (checkbox "lane" requested) lanes (λ v. refl)

clear_hrefs :
    (given : Bool)
    → hrefs_all (
        when given
          (element "a" (attr "href" "/app" ∷ []) (text "Clear filters" ▹ nothing) ▹ nothing))
      ≡ (if given then "/app" ∷ [] else [])
clear_hrefs true = refl
clear_hrefs false = refl

filter_form-hrefs :
    (options : StaffQueueFilterOptions) (status lane : List String)
    → hrefs (filter_form options status lane) ≡ clear_link status lane
unfolding filter_form
filter_form-hrefs options status lane =
    rw (hrefs_all-none (checkbox "status" status) (map status_text options.statuses) (λ v. refl)) (
      rw (lane_boxes-silent lane options.lanes)
        (append-nil _ ∙ clear_hrefs (is_given status || is_given lane)))

map_links :
    (rows : List Request)
    → map (λ (i : StaffQueueItem). request_link i.id) (map to_item rows)
      ≡ map (λ (r : Request). request_link r.id) rows
map_links [] = refl
map_links (r ∷ rows) = ap (λ l. request_link r.id ∷ l) (map_links rows)

module _ (format : Format) where
  queue_table-hrefs :
      (queue : List StaffQueueItem)
      → hrefs (queue_table format queue) ≡ map (λ (i : StaffQueueItem). request_link i.id) queue
  unfolding queue_table each status_badge badge
  queue_table-hrefs [] = refl
  queue_table-hrefs (i ∷ queue) =
      ap (λ l. request_link i.id ∷ l)
        (append-nil _
          ∙ hrefs_all-each (queue_row format) (λ (x : StaffQueueItem). request_link x.id) queue
              (λ x. refl))

  queue_page-hrefs :
      (m : AuthenticatedMembership) (options : StaffQueueFilterOptions) (status lane : List String)
      (queue : List StaffQueueItem)
      → hrefs (queue_page format m options status lane queue)
        ≡ "/api/auth/signout" ∷ clear_link status lane
          ++ map (λ (i : StaffQueueItem). request_link i.id) queue
  unfolding queue_page
  queue_page-hrefs m options status lane queue =
      ap (λ l. "/api/auth/signout" ∷ l)
        (rw (filter_form-hrefs options status lane) (
          ap (λ l. clear_link status lane ++ l)
            (append-nil _ ∙ append-nil _ ∙ queue_table-hrefs queue)))

  module _ (pg : Postgres) (schema : SettingsSchema) (session : Option String)
      (status lane : QueryParam) (s : Database) (m : AuthenticatedMembership)
      (options : StaffQueueFilterOptions) where
    -- For a member whose org's settings can be read, the queue page links, beside the sign-out and,
    -- if the query names a status or a lane, the unfiltered queue, to exactly the first 50, or all, of
    -- the requests of their org that pass the filters of the query, by triage rank and then from the
    -- newest to the oldest.
    pub staff_queue_page-links :
        require_session_or_redirect pg session s ≡ Visitor.member m
        → get_staff_queue_filter_options schema m.org_id s ≡ ok options
        → (rows : List Request) × (h : Html) × (staff_queue_page format pg schema session status
              lane s
            ≡ ok (rendered h))
          × (hrefs h
              ≡ "/api/auth/signout" ∷ clear_link (to_string_array status) (to_string_array lane)
                ++ map (λ (r : Request). request_link r.id) rows)
          × IsTop triage_order queue_limit
              (filter
                (λ r. r.org_id == m.org_id && passes (page_filters options status lane) r)
                s.requests)
              rows
    unfolding staff_queue_page with_options queue_shown
    staff_queue_page-links member read =
        let (rows, queue, top) =
          get_staff_queue-IsTop pg m.org_id (page_filters options status lane) s in
        (
          rows,
          queue_page format m options (to_string_array status) (to_string_array lane)
              (map to_item rows),
          rw (member, staff_queue_page)
              (ap (with_options format pg schema m status lane s) read
                ∙ ap (queue_shown format m options status lane) queue),
          queue_page-hrefs m options (to_string_array status) (to_string_array lane)
                (map to_item rows)
              ∙ ap
                  (λ l.
                    "/api/auth/signout" ∷ clear_link (to_string_array status) (to_string_array lane)
                    ++ l)
                  (map_links rows),
          top,
        )
