-- ===== src/Web/Staff/Reads.antt =====
-- What the reads of a staff transaction return in the caller's own org.
use frontdesk_intake.Prelude.{
  String, ◌&&◌, Option, none, some, List, ◌≡◌, refl, first, take, filter, filter-congr, arith,
}
use frontdesk_intake.Database.Rows.{Database, Request, Draft}
use frontdesk_intake.Database.Tx.{ok, Supply, ◌>>=◌}
use frontdesk_intake.Database.Statements.{select_requests, select_drafts, visible}
use frontdesk_intake.Database.Order.{Postgres}
use frontdesk_intake.Web.Staff.{
  CurrentState, state_of, latest_draft, load_current_state, is_request, is_draft_of, version_desc,
  version_of,
}

-- the request that a caller of `org_id` names
abbrev pub request_in : String → String → Database → Option Request
request_in org_id id s = first (filter (is_request org_id id) s.requests)

filter-visible-request :
    (org_id id : String) (rows : List Request)
    → filter (λ r. visible (some org_id) r.org_id && is_request org_id id r) rows
      ≡ filter (is_request org_id id) rows
filter-visible-request org_id id rows = filter-congr _ _ rows (λ r. ground arith)

filter-visible-draft :
    (org_id id : String) (rows : List Draft)
    → filter (λ d. visible (some org_id) d.org_id && is_draft_of org_id id d) rows
      ≡ filter (is_draft_of org_id id) rows
filter-visible-draft org_id id rows = filter-congr _ _ rows (λ d. ground arith)

module _ (pg : Postgres) where
  -- its current draft: the first one in the order of falling versions
  abbrev pub latest_in : String → String → Database → Option Draft
  latest_in org_id id s =
      first (take 1 (pg.order_by version_desc (filter (is_draft_of org_id id) s.drafts)))

  abbrev pub state_in : Option Request → Option Draft → Option CurrentState
  state_in none latest = none
  state_in (some r) latest = some (record {
    status = r.status;
    reply_text = r.reply_text;
    latest_draft_version = version_of latest;
  })

  module _ (supply : Supply) (org_id id : String) (s : Database) where
    pub latest_draft-eq :
        latest_draft pg supply org_id id (some org_id) s ≡ (ok (latest_in org_id id s), s)
    unfolding latest_draft ◌>>=◌ select_drafts
    latest_draft-eq = rw (filter-visible-draft org_id id s.drafts)

    state_of-eq :
        (found : Option Request)
        → state_of pg supply org_id id found (some org_id) s
          ≡ (ok (state_in found (latest_in org_id id s)), s)
    unfolding state_of ◌>>=◌
    state_of-eq none = refl
    state_of-eq (some r) = rw latest_draft-eq

    pub load_current_state-eq :
        load_current_state pg supply org_id id (some org_id) s
        ≡ (ok (state_in (request_in org_id id s) (latest_in org_id id s)), s)
    unfolding load_current_state ◌>>=◌ select_requests
    load_current_state-eq =
        rw (filter-visible-request org_id id s.requests) (state_of-eq (request_in org_id id s))
