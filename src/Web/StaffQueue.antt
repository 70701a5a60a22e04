-- ===== src/Web/StaffQueue.antt =====
-- web/src/lib/staffQueue.ts, and the choice of filters of the page web/src/app/app/page.tsx.
pub mod Shown
pub mod Filters
pub mod Options
use frontdesk_intake.Prelude.{
  ◌++◌, ℕ, zero, suc, String, Bool, true, false, ◌&&◌, ◌||◌, Option, none, some, List, [], ◌∷◌,
  ◌==◌, any, length, map, take, filter, ltb, leb, nat_beq, is_empty, if◌then◌else◌,
}
use frontdesk_intake.Database.Enums.{
  RequestStatus, approved, rejected, needs_human, RequestUrgency, high, status_beq, status_text,
  request_statuses,
}
use frontdesk_intake.Database.Rows.{Database, Request}
use frontdesk_intake.Database.Tx.{Outcome, Tx, pure, ◌>>=◌}
use frontdesk_intake.Database.Statements.{select_requests}
use frontdesk_intake.Database.Order.{Postgres}
use frontdesk_intake.Database.Client.{for_org}

pub record StaffQueueItem : Type 0 where
  pub id : String
  pub subject : String
  pub status : RequestStatus
  pub urgency : Option RequestUrgency
  pub lane : Option String
  pub created_at : ℕ

pub record StaffQueueFilters : Type 0 where
  pub status : Option (List RequestStatus)
  pub lane : Option (List String)
  pub category : Option (List String)

abbrev pub queue_limit : ℕ
queue_limit = 50

abbrev is_high : Option RequestUrgency → Bool
is_high (some high) = true
is_high _ = false

-- The `case` of TRIAGE_RANK: its first branch that applies.
unfoldable pub triage_rank : RequestStatus → Option RequestUrgency → ℕ
triage_rank status urgency =
    if status_beq status approved || status_beq status rejected
    then 2
    else if status_beq status needs_human
    then 0
    else if is_high urgency
    then 1
    else 2

-- ORDER BY rank, created_at DESC
unfoldable pub triage_order : Request → Request → Bool
unfolding triage_rank
triage_order a b =
    ltb (triage_rank a.status a.urgency) (triage_rank b.status b.urgency)
    || (nat_beq (triage_rank a.status a.urgency) (triage_rank b.status b.urgency)
        && leb b.created_at a.created_at)

-- `inArray(column, values)`, pushed only for a filter with values; a null column is in no list.
module _ {A : Type 0} (eq : A → A → Bool) where
  abbrev in_values : List A → Option A → Bool
  in_values values none = false
  in_values values (some x) = any (eq x) values

  abbrev pub in_array : Option (List A) → Option A → Bool
  in_array none column = true
  in_array (some []) column = true
  in_array (some (x ∷ xs)) column = in_values (x ∷ xs) column

unfoldable pub passes : StaffQueueFilters → Request → Bool
passes filters r =
    in_array status_beq filters.status (some r.status)
    && in_array ◌==◌ filters.lane r.lane
    && in_array ◌==◌ filters.category r.category

abbrev pub to_item : Request → StaffQueueItem
to_item r = record {
  id = r.id;
  subject = r.subject;
  status = r.status;
  urgency = r.urgency;
  lane = r.lane;
  created_at = r.created_at;
}

unfoldable pub staff_queue_tx : Postgres → StaffQueueFilters → String → Tx (List StaffQueueItem)
unfolding passes triage_order
staff_queue_tx pg filters org_id = do
  rows ← select_requests (λ r. r.org_id == org_id && passes filters r)
  pure (map to_item (take queue_limit (pg.order_by triage_order rows)))

unfoldable pub get_staff_queue :
    Postgres → String → StaffQueueFilters → Database → Outcome (List StaffQueueItem)
unfolding staff_queue_tx
get_staff_queue pg org_id filters s = (for_org org_id (staff_queue_tx pg filters) s).0

-- The org's own vocabulary, which getStaffQueueFilterOptions reads from its settings.
pub record StaffQueueFilterOptions : Type 0 where
  pub statuses : List RequestStatus
  pub lanes : List String
  pub categories : List String

-- a query parameter: absent, given once, or several times
pub data QueryParam : Type 0 where
  absent : QueryParam
  once : String → QueryParam
  many : List String → QueryParam

unfoldable pub to_string_array : QueryParam → List String
to_string_array absent = []
to_string_array (once value) = if is_empty value then [] else value ∷ []
to_string_array (many values) = values

-- the statuses among the valid ones that a query names, in the query's order
abbrev pub status_named : String → List RequestStatus → List RequestStatus
status_named text [] = []
status_named text (x ∷ xs) = if status_text x == text then x ∷ [] else status_named text xs

abbrev pub status_filter : List RequestStatus → List String → List RequestStatus
status_filter valid [] = []
status_filter valid (text ∷ rest) = status_named text valid ++ status_filter valid rest

abbrev pub lane_filter : List String → List String → List String
lane_filter lanes requested = filter (λ l. any (λ x. x == l) lanes) requested

-- `values.length > 0 ? values : undefined`
abbrev pub or_undefined {ℓ} : {A : Type ℓ} → List A → Option (List A)
or_undefined [] = none
or_undefined (x ∷ xs) = some (x ∷ xs)

unfoldable pub page_filters : StaffQueueFilterOptions → QueryParam → QueryParam → StaffQueueFilters
unfolding to_string_array
page_filters options status lane = record {
  status = or_undefined (status_filter options.statuses (to_string_array status));
  lane = or_undefined (lane_filter options.lanes (to_string_array lane));
  category = none;
}
