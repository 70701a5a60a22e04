-- ===== src/Database/Statements.antt =====
-- The statements that the program issues on the tenant tables, under the policies and constraints
-- of db/src/schema. `app.org_id` decides which rows a statement sees and may write.
use frontdesk_intake.Prelude.{
  ℕ, String, Bool, false, ◌&&◌, not, Option, none, some, List, [], ◌∷◌, ◌++◌, ◌==◌, any, length,
  filter, update_where, delete_where, if◌then◌else◌, nat_beq,
}
use frontdesk_intake.Database.Enums.{RequestStatus}
use frontdesk_intake.Database.Rows.{Database, Org, Request, Draft, Action, Document, Chunk}
use frontdesk_intake.Database.Tx.{Tx, Error, ok, err, row_security, constraint}

-- `org_id = current_org_id()`, which is null outside `forOrg`
abbrev pub visible : Option String → String → Bool
visible none org_id = false
visible (some current) org_id = org_id == current

-- the policy "org_isolation" for SELECT on each table
unfoldable pub select_requests : (Request → Bool) → Tx (List Request)
select_requests p guc s = (ok (filter (λ r. visible guc r.org_id && p r) s.requests), s)

unfoldable pub select_drafts : (Draft → Bool) → Tx (List Draft)
select_drafts p guc s = (ok (filter (λ d. visible guc d.org_id && p d) s.drafts), s)

unfoldable pub select_actions : (Action → Bool) → Tx (List Action)
select_actions p guc s = (ok (filter (λ a. visible guc a.org_id && p a) s.actions), s)

unfoldable pub select_documents : (Document → Bool) → Tx (List Document)
select_documents p guc s = (ok (filter (λ d. visible guc d.org_id && p d) s.documents), s)

unfoldable pub select_chunks : (Chunk → Bool) → Tx (List Chunk)
select_chunks p guc s = (ok (filter (λ c. visible guc c.org_id && p c) s.chunks), s)

-- `orgs` has no policy.
unfoldable pub select_orgs : (Org → Bool) → Database → List Org
select_orgs p s = filter p s.orgs

abbrev pub has_request : String → String → List Request → Bool
has_request org_id id rows = any (λ r. r.org_id == org_id && r.id == id) rows

-- INSERT is refused by WITH CHECK, then by the keys and unique constraints, then by the foreign key.
unfoldable pub request_refusal : Request → Option String → Database → Option Error
request_refusal row guc s =
    if not (visible guc row.org_id)
    then some (row_security "requests")
    else if any (λ r. r.id == row.id) s.requests
    then some (constraint "requests_pkey")
    else if any (λ r. r.tracking_token == row.tracking_token) s.requests
    then some (constraint "requests_tracking_token_unique")
    else if not (any (λ o. o.id == row.org_id) s.orgs)
    then some (constraint "requests_org_id_orgs_id_fk")
    else none

unfoldable pub insert_request : Request → Tx Unit
insert_request row guc s = elim (request_refusal row guc s) [
  | some e ↦ (err e, s)
  | none ↦ (ok tt, record s { requests = s.requests ++ row ∷ [] })
]

abbrev pub same_version : Draft → Draft → Bool
same_version a b =
    a.org_id == b.org_id && a.request_id == b.request_id && nat_beq a.version b.version

unfoldable pub draft_refusal : Draft → Option String → Database → Option Error
draft_refusal row guc s =
    if not (visible guc row.org_id)
    then some (row_security "drafts")
    else if any (λ d. d.id == row.id) s.drafts
    then some (constraint "drafts_pkey")
    else if any (λ d. same_version d row) s.drafts
    then some (constraint "drafts_org_id_request_id_version_unique")
    else if not (has_request row.org_id row.request_id s.requests)
    then some (constraint "drafts_org_id_request_id_requests_org_id_id_fk")
    else none

unfoldable pub insert_draft : Draft → Tx Unit
insert_draft row guc s = elim (draft_refusal row guc s) [
  | some e ↦ (err e, s)
  | none ↦ (ok tt, record s { drafts = s.drafts ++ row ∷ [] })
]

unfoldable pub action_refusal : Action → Option String → Database → Option Error
action_refusal row guc s =
    if not (visible guc row.org_id)
    then some (row_security "actions")
    else if any (λ a. a.id == row.id) s.actions
    then some (constraint "actions_pkey")
    else if not (has_request row.org_id row.request_id s.requests)
    then some (constraint "actions_org_id_request_id_requests_org_id_id_fk")
    else none

unfoldable pub insert_action : Action → Tx Unit
insert_action row guc s = elim (action_refusal row guc s) [
  | some e ↦ (err e, s)
  | none ↦ (ok tt, record s { actions = s.actions ++ row ∷ [] })
]

-- The columns of `requests` that an UPDATE of the program sets; `none` leaves `reply_text` alone.
pub record RequestSet : Type 0 where
  pub status : RequestStatus
  pub reply_text : Option (Option String)
  pub resolved_at : Option ℕ

abbrev pub or_keep {ℓ} : {A : Type ℓ} → Option A → A → A
or_keep none old = old
or_keep (some new) old = new

abbrev pub apply_set : RequestSet → Request → Request
apply_set set r = record r {
  status = set.status;
  reply_text = or_keep set.reply_text r.reply_text;
  resolved_at = set.resolved_at;
}

unfoldable pub update_requests : (Request → Bool) → RequestSet → Tx Unit
update_requests p set guc s = (
  ok tt,
  record s {
    requests = update_where (λ r. visible guc r.org_id && p r) (apply_set set) s.requests;
  },
)

-- DELETE, with the cascade of the foreign keys of `drafts` and `actions`; the count of its rows.
unfoldable pub delete_requests : (Request → Bool) → Tx ℕ
delete_requests p guc s =
    let gone = filter (λ r. visible guc r.org_id && p r) s.requests in
    (
      ok (length gone),
      record s {
        requests = delete_where (λ r. visible guc r.org_id && p r) s.requests;
        drafts = delete_where (λ d. has_request d.org_id d.request_id gone) s.drafts;
        actions = delete_where (λ a. has_request a.org_id a.request_id gone) s.actions;
      },
    )
