-- ===== src/Web/Staff/Audit.antt =====
-- The audit log: each successful staff call adds one row that tells the truth about the request
-- before and after, and about who acted.
use frontdesk_intake.Prelude.{
  Option, none, String, true, false, some, List, [], ◌∷◌, ◌++◌, ◌≡◌, refl, sym, ap, ◌∙◌, first,
  filter, Option-cases, inl, inr,
}
use frontdesk_intake.Database.Enums.{RequestStatus, ActionKind, approve, edit, reject}
use frontdesk_intake.Database.Rows.{Database, Request, Action}
use frontdesk_intake.Database.Tx.{Supply, ok}
use frontdesk_intake.Database.Statements.{apply_set, RequestSet}
use frontdesk_intake.Database.Order.{Postgres}
use frontdesk_intake.Web.Form.{string_field}
use frontdesk_intake.Web.Guard.{AuthenticatedMembership}
use frontdesk_intake.Web.Staff.{is_request, is_resolved, version_of, Navigation}
use frontdesk_intake.Database.Snapshot.{snapshot_json, ActionSnapshot}
use frontdesk_intake.Web.Staff.Calls.{StaffCall, approve_call, edit_call, reject_call, call}
use frontdesk_intake.Web.Staff.Isolation.{caller}
use frontdesk_intake.Web.Staff.Reads.{request_in, latest_in}
use frontdesk_intake.Web.Staff.Effects.{
  snapshot_of, set_request, request_in-set, approved_with, rejected_now,
}
use frontdesk_intake.Web.Staff.Approve.{Approved}
use frontdesk_intake.Web.Staff.Edit.{Edited}
use frontdesk_intake.Web.Staff.Reject.{Rejected}
use frontdesk_intake.Web.Staff.Revision.{latest_in-edited, latest_in-ne-none}
use frontdesk_intake.Web.Staff.Success.{
  approve_request_action-ok, edit_approve_request_action-ok, reject_request_action-ok,
}

abbrev pub target : StaffCall → String
target (approve_call supply session id) = id
target (edit_call supply session id form) = id
target (reject_call supply session id form) = id

abbrev pub kind_of : StaffCall → ActionKind
kind_of (approve_call supply session id) = approve
kind_of (edit_call supply session id form) = edit
kind_of (reject_call supply session id form) = reject

-- the reason that a rejection gives
abbrev pub reason_of : StaffCall → Option String
reason_of (approve_call supply session id) = none
reason_of (edit_call supply session id form) = none
reason_of (reject_call supply session id form) = some (string_field form "reason")

abbrev pub decided : ActionKind → RequestStatus
decided reject = RequestStatus.rejected
decided _ = RequestStatus.approved

-- the reply that a decision publishes: none for a rejection
abbrev pub published : ActionKind → Request → Option String
published reject r = none
published _ r = r.reply_text

-- One row was added to the log: the member acted on their org's request `id`, which was open, and
-- is now decided as `kind` says. The row's `before` records the request's status, reply and current
-- draft as they were; its `after` the status and the current draft that the tables have now, and the
-- reply that was published, which is the request's; `reason` is the one that was given.
pub record Audited (pg : Postgres) (m : AuthenticatedMembership) (id : String) (kind : ActionKind)
    (reason : Option String) (s t : Database) : Type 0 where
  pub request : Request
  pub found : request_in m.org_id id s ≡ some request
  pub unresolved : is_resolved request.status ≡ false
  pub request_after : Request
  pub found_after : request_in m.org_id id t ≡ some request_after
  pub decision : request_after.status ≡ decided kind
  pub resolved : is_resolved request_after.status ≡ true
  pub entry : Action
  pub logged : t.actions ≡ s.actions ++ entry ∷ []
  pub org : entry.org_id ≡ m.org_id
  pub about : entry.request_id ≡ id
  pub who : entry.actor_email ≡ m.email
  pub what : entry.kind ≡ kind
  pub why : entry.reason ≡ reason
  pub before :
      entry.before ≡ some (snapshot_json (snapshot_of request (latest_in pg m.org_id id s)))
  pub after_snapshot : ActionSnapshot
  pub after : entry.after ≡ some (snapshot_json after_snapshot)
  pub after_status : after_snapshot.status ≡ request_after.status
  pub after_reply : after_snapshot.reply_text ≡ published kind request_after
  pub after_version : after_snapshot.draft_version ≡ version_of (latest_in pg m.org_id id t)

module _ (pg : Postgres) (m : AuthenticatedMembership) (id : String) (s t : Database) where
  request_in-resolved :
      (o : String) (set : RequestSet) {r : Request}
      → request_in o id s ≡ some r
      → t.requests ≡ set_request o id set s.requests
      → request_in o id t ≡ some (apply_set set r)
  request_in-resolved o set found rows =
      ap (λ (x : List Request). first (filter (is_request o id) x)) rows
      ∙ request_in-set o id set s found

  latest_in-same : (o : String) → t.drafts ≡ s.drafts → latest_in pg o id t ≡ latest_in pg o id s
  latest_in-same o rows = rw rows refl

  approve-Audited :
      (supply : Supply) → Approved pg supply m m.org_id id s t → Audited pg m id approve none s t
  approve-Audited supply done = record {
    request = done.request;
    found = done.found;
    unresolved = done.unresolved;
    request_after = apply_set (approved_with supply done.draft.body) done.request;
    found_after =
        request_in-resolved m.org_id (approved_with supply done.draft.body) done.found
          (ap (λ (d : Database). d.requests) done.tables);
    decision = refl;
    resolved = refl;
    entry = _;
    logged = ap (λ (d : Database). d.actions) done.tables;
    org = refl;
    about = refl;
    who = refl;
    what = refl;
    why = refl;
    before = rw done.latest refl;
    after_snapshot = _;
    after = refl;
    after_status = refl;
    after_reply = refl;
    after_version = sym (
        ap version_of
          (latest_in-same m.org_id (ap (λ (d : Database). d.drafts) done.tables) ∙ done.latest));
  }

  reject-Audited :
      (supply : Supply) (reason : String)
      → Rejected pg supply m m.org_id id s reason t
      → Audited pg m id reject (some reason) s t
  reject-Audited supply reason done = record {
    request = done.request;
    found = done.found;
    unresolved = done.unresolved;
    request_after = apply_set (rejected_now supply) done.request;
    found_after =
        request_in-resolved m.org_id (rejected_now supply) done.found
          (ap (λ (d : Database). d.requests) done.tables);
    decision = refl;
    resolved = refl;
    entry = _;
    logged = ap (λ (d : Database). d.actions) done.tables;
    org = refl;
    about = refl;
    who = refl;
    what = refl;
    why = refl;
    before = refl;
    after_snapshot = _;
    after = refl;
    after_status = refl;
    after_reply = refl;
    after_version =
        sym (ap version_of (latest_in-same m.org_id (ap (λ (d : Database). d.drafts) done.tables)));
  }

  edit-Audited :
      (supply : Supply) (body : String)
      → Edited pg supply m m.org_id id body s t
      → Audited pg m id edit none s t
  edit-Audited supply body done = record {
    request = done.request;
    found = done.found;
    unresolved = done.unresolved;
    request_after = apply_set (approved_with supply body) done.request;
    found_after =
        request_in-resolved m.org_id (approved_with supply body) done.found
          (ap (λ (d : Database). d.requests) done.tables);
    decision = refl;
    resolved = refl;
    entry = _;
    logged = ap (λ (d : Database). d.actions) done.tables;
    org = refl;
    about = refl;
    who = refl;
    what = refl;
    why = refl;
    before = refl;
    after_snapshot = _;
    after = refl;
    after_status = refl;
    after_reply = refl;
    after_version =
        let drafts = ap (λ (d : Database). d.drafts) done.tables in
        elim (Option-cases (latest_in pg m.org_id id t)) [
          | inl undrafted ↦
              absurd (latest_in-ne-none pg supply m m.org_id id body s t drafts undrafted)
          | inr (d, latest) ↦ sym (
              ap version_of latest
              ∙ ap some (latest_in-edited pg supply m m.org_id id body s d t drafts latest).1)
        ];
  }

-- Whatever the action, a call that no other one overtakes and that succeeds was made by a member of
-- the org, resolved an open request of that org as the action says, and added exactly one row to the
-- audit log. The row names the org, the request, the member, the action and the reason given; it
-- records the request's status, reply and current draft before, and afterwards its status, its
-- current draft and the reply that was published: the request's, or none for a rejection.
pub call-Audited :
    (pg : Postgres) (c : StaffCall) (s t : Database) (nav : Navigation)
    → call pg c s ≡ (ok nav, t)
    → (m : AuthenticatedMembership) × (caller pg c s ≡ ok m)
      × Audited pg m (target c) (kind_of c) (reason_of c) s t
unfolding call caller
call-Audited pg (approve_call supply session id) s t nav h =
    let (m, is_member, done) = approve_request_action-ok pg supply session id s t nav h in
    (m, is_member, approve-Audited pg m id s t supply done)
call-Audited pg (edit_call supply session id form) s t nav h =
    let (m, is_member, given, done) =
      edit_approve_request_action-ok pg supply session id s t nav form h in
    (m, is_member, edit-Audited pg m id s t supply (string_field form "body") done)
call-Audited pg (reject_call supply session id form) s t nav h =
    let (m, is_member, given, done) =
      reject_request_action-ok pg supply session id s t nav form h in
    (m, is_member, reject-Audited pg m id s t supply (string_field form "reason") done)
