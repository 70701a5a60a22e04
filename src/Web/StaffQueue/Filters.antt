-- ===== src/Web/StaffQueue/Filters.antt =====
-- Query parameters of the staff queue page that name nothing.
use frontdesk_intake.Prelude.{
  inr, inl, Bool-cases, String, Bool, true, false, none, List, [], ◌∷◌, map, any, ◌==◌, ◌≡◌, refl,
  arith, if◌then◌else◌, Bool-cases, inl, inr,
}
use frontdesk_intake.Database.Enums.{RequestStatus, status_text}
use frontdesk_intake.Database.Rows.{Database}
use frontdesk_intake.Database.Order.{Postgres}
use frontdesk_intake.Web.StaffQueue.{
  status_named, StaffQueueFilters, StaffQueueFilterOptions, QueryParam, page_filters, status_filter,
  lane_filter, to_string_array, get_staff_queue,
}

-- no value that the query gives is among the texts on offer
abbrev pub names_none : List String → QueryParam → Bool
names_none offered param =
    if any (λ v. any (λ x. x == v) offered) (to_string_array param) then false else true

status_named_none :
    (text : String) (valid : List RequestStatus)
    → any (λ x. x == text) (map status_text valid) ≡ false
    → status_named text valid ≡ []
status_named_none text [] h = refl
status_named_none text (x ∷ valid) h = ground (arith, status_named_none text valid)

status_filter_none :
    (valid : List RequestStatus) (values : List String)
    → any (λ v. any (λ x. x == v) (map status_text valid)) values ≡ false
    → status_filter valid values ≡ []
status_filter_none valid [] h = refl
status_filter_none valid (v ∷ values) h =
    elim (Bool-cases (any (λ x. x == v) (map status_text valid))) [
      | inl offered ↦ cc (offered)
      | inr missing ↦
          rw (status_named_none v valid missing) (status_filter_none valid values (rw missing at h))
    ]

lane_filter_none :
    (lanes values : List String)
    → any (λ v. any (λ x. x == v) lanes) values ≡ false
    → lane_filter lanes values ≡ []
lane_filter_none lanes [] h = refl
lane_filter_none lanes (v ∷ values) h = ground (arith, lane_filter_none lanes values)

abbrev pub no_filters : StaffQueueFilters
no_filters = record { status = none; lane = none; category = none }

-- A query whose values are all unknown to the org shows the whole queue, as if nothing was asked.
pub page_filters_unknown :
    (pg : Postgres) (options : StaffQueueFilterOptions) (status lane : QueryParam) (org_id : String)
    (s : Database)
    → names_none (map status_text options.statuses) status ≡ true
    → names_none options.lanes lane ≡ true
    → get_staff_queue pg org_id (page_filters options status lane) s
      ≡ get_staff_queue pg org_id no_filters s
unfolding page_filters
page_filters_unknown pg options status lane org_id s h k =
    rw (status_filter_none options.statuses (to_string_array status) (ground (arith, h)))
      (rw (lane_filter_none options.lanes (to_string_array lane) (ground (arith, k))) refl)
