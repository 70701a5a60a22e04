-- ===== src/Web/Staff/Effects.antt =====
-- The writes of a staff transaction: which tables they leave, and when the database refuses them.
use frontdesk_intake.Prelude.{
  eq_refl, ◌==◌, any, String, true, false, ◌&&◌, Option, none, some, List, [], ◌∷◌, ◌++◌, ◌≡◌, refl,
  ◌∙◌, ◌⊎◌, first, filter, update_where, update_where-congr, filter-update_where_self, first-map,
  any-update_where, any-eq_filter, arith, Option-cases, inl, inr,
}
use frontdesk_intake.Database.Enums.{approved, rejected, ActionKind}
use frontdesk_intake.Database.Rows.{Database, Request, Draft, Action}
use frontdesk_intake.Database.Tx.{ok, err, Error, Supply}
use frontdesk_intake.Database.Statements.{
  insert_draft, insert_action, update_requests, RequestSet, apply_set, visible, has_request,
  draft_refusal, action_refusal,
}
use frontdesk_intake.Web.Guard.{AuthenticatedMembership}
use frontdesk_intake.Web.Staff.{is_request, version_of}
use frontdesk_intake.Database.Snapshot.{snapshot_json}
use frontdesk_intake.Database.Snapshot.{ActionSnapshot}
use frontdesk_intake.Web.Staff.Reads.{request_in}

-- the row that the audit log gains
abbrev pub audit_row :
    Supply
    → AuthenticatedMembership
    → String
    → String
    → ActionKind
    → ActionSnapshot
    → ActionSnapshot
    → Option String
    → Action
audit_row supply m org_id id kind before after reason = record {
  id = supply.uuid 0;
  org_id = org_id;
  request_id = id;
  actor_email = m.email;
  kind = kind;
  before = some (snapshot_json before);
  after = some (snapshot_json after);
  reason = reason;
  created_at = supply.now;
}

-- status, reply and current draft of a request, as a snapshot records them
abbrev pub snapshot_of : Request → Option Draft → ActionSnapshot
snapshot_of r latest = record {
  status = r.status;
  reply_text = r.reply_text;
  draft_version = version_of latest;
}

-- the table of requests after the columns of one request are set
abbrev pub set_request : String → String → RequestSet → List Request → List Request
set_request org_id id set rows = update_where (is_request org_id id) (apply_set set) rows

module _ (org_id id : String) (set : RequestSet) (s : Database) where
  pub update_requests-eq :
      update_requests (is_request org_id id) set (some org_id) s
      ≡ (ok tt, record s { requests = set_request org_id id set s.requests })
  unfolding update_requests
  update_requests-eq = rw (
      update_where-congr (λ r. visible (some org_id) r.org_id && is_request org_id id r)
        (is_request org_id id) (apply_set set) s.requests (λ r. ground arith))

  pub request_in-set :
      {r : Request}
      → request_in org_id id s ≡ some r
      → first (filter (is_request org_id id) (set_request org_id id set s.requests))
        ≡ some (apply_set set r)
  request_in-set h =
      rw (filter-update_where_self (is_request org_id id) (apply_set set) s.requests (λ r. refl))
        (first-map (apply_set set) _ h)

  pub has_request-set :
      {r : Request}
      → request_in org_id id s ≡ some r
      → has_request org_id id (set_request org_id id set s.requests) ≡ true
  has_request-set h =
      any-update_where (is_request org_id id) (is_request org_id id) (apply_set set) s.requests
        (λ r. refl)
      ∙ any-eq_filter (is_request org_id id) s.requests h

pub insert_action-cases :
    (row : Action) (guc : Option String) (s : Database)
    → (insert_action row guc s ≡ (ok tt, record s { actions = s.actions ++ row ∷ [] }))
      ⊎ ((e : Error) × (insert_action row guc s ≡ (err e, s)))
unfolding insert_action
insert_action-cases row guc s = elim (Option-cases (action_refusal row guc s)) [
  | inl accepted ↦ inl (rw (accepted, insert_action))
  | inr (e, refused) ↦ inr (e, rw (refused, insert_action))
]

pub insert_draft-cases :
    (row : Draft) (guc : Option String) (s : Database)
    → (insert_draft row guc s ≡ (ok tt, record s { drafts = s.drafts ++ row ∷ [] }))
      ⊎ ((e : Error) × (insert_draft row guc s ≡ (err e, s)))
unfolding insert_draft
insert_draft-cases row guc s = elim (Option-cases (draft_refusal row guc s)) [
  | inl accepted ↦ inl (rw (accepted, insert_draft))
  | inr (e, refused) ↦ inr (e, rw (refused, insert_draft))
]

pub insert_action-ok :
    (row : Action) (guc : Option String) (s t : Database) {u : Unit {0}}
    → insert_action row guc s ≡ (ok u, t)
    → t ≡ record s { actions = s.actions ++ row ∷ [] }
insert_action-ok row guc s t h = elim (insert_action-cases row guc s) [
  | inl e ↦ cc
  | inr (x, e) ↦ cc
]

abbrev pub approved_with : Supply → String → RequestSet
approved_with supply text = record {
  status = approved;
  reply_text = some (some text);
  resolved_at = some supply.new_date;
}

abbrev pub rejected_now : Supply → RequestSet
rejected_now supply = record {
  status = rejected;
  reply_text = none;
  resolved_at = some supply.new_date;
}

-- The tables `s` after the request `id` of `o` is resolved: its columns are set, the audit log gains
-- one row, and nothing else differs.
abbrev pub resolved_tables :
    Supply
    → AuthenticatedMembership
    → String
    → String
    → RequestSet
    → ActionKind
    → ActionSnapshot
    → ActionSnapshot
    → Option String
    → Database
    → Database
resolved_tables supply m o id set kind before after reason s = record s {
  requests = set_request o id set s.requests;
  actions = s.actions ++ audit_row supply m o id kind before after reason ∷ [];
}

-- The audit row of a request that exists is refused only if its identifier is taken.
pub insert_action-accepted :
    (row : Action) (s : Database)
    → any (λ a. a.id == row.id) s.actions ≡ false
    → has_request row.org_id row.request_id s.requests ≡ true
    → insert_action row (some row.org_id) s ≡ (ok tt, record s { actions = s.actions ++ row ∷ [] })
unfolding insert_action action_refusal
insert_action-accepted row s fresh parent = ground (arith, eq_refl row.org_id)
