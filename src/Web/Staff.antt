-- ===== src/Web/Staff.antt =====
-- web/src/lib/staffActions.ts: approve, edit and reject. Each is one `forOrg` transaction after
-- the membership check; the proofs are in the modules below.
pub mod Calls
pub mod Isolation
pub mod Reads
pub mod Leaves
pub mod Final
pub mod Effects
pub mod Approve
pub mod Edit
pub mod Versions
pub mod Revision
pub mod Success
pub mod Audit
pub mod Reject
pub mod Race
use frontdesk_intake.Prelude.{
  ℕ, String, Bool, true, false, ◌&&◌, ◌+◌, Option, none, some, List, [], ◌∷◌, ◌==◌, is_empty, first,
  take, leb, if◌then◌else◌,
}
use Prim.Native.String.{◌++◌ as str_append}
use frontdesk_intake.Json.{Json, null, num, str, arr, obj, nil, end, field}
use frontdesk_intake.Database.Enums.{
  RequestStatus, approved, rejected, status_text, ActionKind, approve, edit, reject,
}
use frontdesk_intake.Database.Rows.{Database, Request, Draft}
use frontdesk_intake.Database.Snapshot.{ActionSnapshot, snapshot_json}
use frontdesk_intake.Database.Tx.{
  Outcome, ok, err, thrown, Tx, pure, throw, or_throw, ◌>>=◌, ◌>>◌, Supply,
}
use frontdesk_intake.Database.Statements.{
  select_requests, select_drafts, insert_draft, insert_action, update_requests,
}
use frontdesk_intake.Database.Order.{Postgres}
use frontdesk_intake.Database.Client.{for_org}
use frontdesk_intake.Web.Form.{FormData, string_field}
use frontdesk_intake.Web.Guard.{AuthenticatedMembership, require_membership_for_action}

pub record CurrentState : Type 0 where
  pub status : RequestStatus
  pub reply_text : Option String
  pub latest_draft_version : Option ℕ

abbrev pub is_request : String → String → Request → Bool
is_request org_id id r = r.org_id == org_id && r.id == id

abbrev pub is_draft_of : String → String → Draft → Bool
is_draft_of org_id id d = d.org_id == org_id && d.request_id == id

-- ORDER BY version DESC
abbrev pub version_desc : Draft → Draft → Bool
version_desc a b = leb b.version a.version

abbrev pub version_of : Option Draft → Option ℕ
version_of none = none
version_of (some d) = some d.version

abbrev pub next_version : Option ℕ → ℕ
next_version none = 0 + 1
next_version (some n) = n + 1

-- `RESOLVED_STATUSES.has(status)`
abbrev pub is_resolved : RequestStatus → Bool
is_resolved approved = true
is_resolved rejected = true
is_resolved _ = false

abbrev pub already_resolved : RequestStatus → String
already_resolved status =
    str_append "This request has already been "
      (str_append (status_text status) " and cannot be actioned again.")

unfoldable pub assert_not_resolved : RequestStatus → Tx Unit
assert_not_resolved status = if is_resolved status then throw (already_resolved status) else pure tt

abbrev pub no_draft : String
no_draft = "There is no draft to approve yet - use Edit & Approve to write a reply."

abbrev pub before_snapshot : CurrentState → ActionSnapshot
before_snapshot state = record {
  status = state.status;
  reply_text = state.reply_text;
  draft_version = state.latest_draft_version;
}

-- A Server Action that succeeds: the paths whose caches it drops, and the redirect.
pub record Navigation : Type 0 where
  pub revalidated : List String
  pub redirect : String

abbrev pub revalidate_queue_and_detail : String → List String
revalidate_queue_and_detail request_id = "/app" ∷ str_append "/app/" request_id ∷ []

-- the calls after the transaction
abbrev pub finish : String → Outcome (Unit {0}) × Database → Outcome Navigation × Database
finish request_id (ok done, s) =
    (ok (record { revalidated = revalidate_queue_and_detail request_id; redirect = "/app" }), s)
finish request_id (err e, s) = (err e, s)

module _ (pg : Postgres) (supply : Supply) where
  -- SELECT … ORDER BY version DESC LIMIT 1
  unfoldable pub latest_draft : String → String → Tx (Option Draft)
  latest_draft org_id request_id = do
    rows ← select_drafts (is_draft_of org_id request_id)
    pure (first (take 1 (pg.order_by version_desc rows)))

  state_of : String → String → Option Request → Tx (Option CurrentState)
  state_of org_id request_id none = pure none
  state_of org_id request_id (some current) = do
    latest ← latest_draft org_id request_id
    pure (
        some (record {
          status = current.status;
          reply_text = current.reply_text;
          latest_draft_version = version_of latest;
        }))

  unfoldable pub load_current_state : String → String → Tx (Option CurrentState)
  unfolding state_of latest_draft
  load_current_state org_id request_id = do
    rows ← select_requests (is_request org_id request_id)
    state_of org_id request_id (first rows)

  unfoldable pub record_action :
      String
      → String
      → AuthenticatedMembership
      → ActionKind
      → ActionSnapshot
      → ActionSnapshot
      → Option String
      → Tx Unit
  record_action org_id request_id membership kind before after reason = insert_action (record {
    id = supply.uuid 0;
    org_id = org_id;
    request_id = request_id;
    actor_email = membership.email;
    kind = kind;
    before = some (snapshot_json before);
    after = some (snapshot_json after);
    reason = reason;
    created_at = supply.now;
  })

  -- `update requests set status, reply_text, resolved_at where org_id and id`
  abbrev pub resolve_request : String → String → RequestStatus → Option (Option String) → Tx Unit
  resolve_request org_id request_id status reply_text =
      update_requests (is_request org_id request_id)
        (record { status = status; reply_text = reply_text; resolved_at = some supply.new_date })

  unfoldable pub approve_tx : AuthenticatedMembership → String → String → Tx Unit
  approve_tx membership request_id org_id = do
    found ← load_current_state org_id request_id
    state ← or_throw found "Request not found."
    assert_not_resolved state.status
    found_draft ← latest_draft org_id request_id
    latest ← or_throw found_draft no_draft
    resolve_request org_id request_id approved (some (some latest.body))
    record_action org_id request_id membership approve (before_snapshot state)
        (record {
          status = approved;
          reply_text = some latest.body;
          draft_version = some latest.version;
        })
        none

  -- the drafts row that an edit authors
  abbrev pub staff_draft : String → String → ℕ → String → Draft
  staff_draft org_id request_id version body = record {
    id = supply.uuid 1;
    org_id = org_id;
    request_id = request_id;
    version = version;
    body = body;
    citations = arr nil;
    confidence = "0";
    model = "staff";
    prompt_version = "n/a";
    tokens_in = 0;
    tokens_out = 0;
    created_at = supply.now;
  }

  unfoldable pub edit_tx : AuthenticatedMembership → String → String → String → Tx Unit
  edit_tx membership request_id body org_id = do
    found ← load_current_state org_id request_id
    state ← or_throw found "Request not found."
    assert_not_resolved state.status
    let version = next_version state.latest_draft_version
    insert_draft (staff_draft org_id request_id version body)
    resolve_request org_id request_id approved (some (some body))
    record_action org_id request_id membership edit (before_snapshot state)
        (record { status = approved; reply_text = some body; draft_version = some version }) none

  unfoldable pub reject_tx : AuthenticatedMembership → String → String → String → Tx Unit
  reject_tx membership request_id reason org_id = do
    found ← load_current_state org_id request_id
    state ← or_throw found "Request not found."
    assert_not_resolved state.status
    resolve_request org_id request_id rejected none
    record_action org_id request_id membership reject (before_snapshot state)
        (record {
          status = rejected;
          reply_text = none;
          draft_version = state.latest_draft_version;
        })
        (some reason)

  -- the transaction of a caller whose membership is known
  abbrev pub in_org :
      Outcome AuthenticatedMembership
      → String
      → (AuthenticatedMembership → String → Tx Unit)
      → Database
      → Outcome Navigation × Database
  in_org (err e) request_id fn s = (err e, s)
  in_org (ok membership) request_id fn s =
      finish request_id (for_org membership.org_id (fn membership) s)

  unfoldable pub approve_request_action :
      Option String → String → Database → Outcome Navigation × Database
  approve_request_action session request_id s =
      in_org (require_membership_for_action pg session s) request_id
        (λ membership. approve_tx membership request_id) s

  -- a required field that is empty, checked after the membership
  abbrev pub with_field :
      Outcome AuthenticatedMembership → String → String → Outcome AuthenticatedMembership
  with_field (err e) value message = err e
  with_field (ok membership) value message =
      if is_empty value then err (thrown message) else ok membership

  unfoldable pub edit_approve_request_action :
      Option String → String → FormData → Database → Outcome Navigation × Database
  edit_approve_request_action session request_id form s =
      let body = string_field form "body" in
      in_org
        (with_field (require_membership_for_action pg session s) body "Reply text is required.")
        request_id (λ membership. edit_tx membership request_id body) s

  unfoldable pub reject_request_action :
      Option String → String → FormData → Database → Outcome Navigation × Database
  reject_request_action session request_id form s =
      let reason = string_field form "reason" in
      in_org
        (with_field (require_membership_for_action pg session s) reason
          "A reason is required to reject a request.")
        request_id (λ membership. reject_tx membership request_id reason) s
