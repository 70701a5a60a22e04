-- ===== src/Web/Staff/Success.antt =====
-- A staff call that succeeds: its caller is a member, and its transaction succeeded in the
-- member's org.
use frontdesk_intake.Prelude.{
  String, false, Option, some, ◌≡◌, refl, is_empty, Bool-cases, inl, inr,
}
use frontdesk_intake.Database.Rows.{Database}
use frontdesk_intake.Database.Tx.{Tx, Outcome, ok, err, Supply, settle}
use frontdesk_intake.Database.Order.{Postgres}
use frontdesk_intake.Database.Client.{for_org}
use frontdesk_intake.Web.Form.{FormData, string_field}
use frontdesk_intake.Web.Guard.{AuthenticatedMembership, require_membership_for_action}
use frontdesk_intake.Web.Staff.{
  Navigation, in_org, with_field, finish, approve_request_action, edit_approve_request_action,
  reject_request_action,
}
use frontdesk_intake.Web.Staff.Approve.{Approved, approve_tx-ok}
use frontdesk_intake.Web.Staff.Edit.{Edited, edit_tx-ok}
use frontdesk_intake.Web.Staff.Reject.{Rejected, reject_tx-ok}

module _ (pg : Postgres) (supply : Supply) where
  settled :
      (id : String) (s t : Database) (nav : Navigation) (r : Outcome (Unit {0}) × Database)
      → finish id (settle s r) ≡ (ok nav, t)
      → r ≡ (ok tt, t)
  settled id s t nav (ok done, u) h = cc
  settled id s t nav (err e, u) h = cc

  in_org-ok :
      (caller : Outcome AuthenticatedMembership) (id : String)
      (fn : AuthenticatedMembership → String → Tx (Unit {0})) (s t : Database) (nav : Navigation)
      → in_org pg supply caller id fn s ≡ (ok nav, t)
      → (m : AuthenticatedMembership) × (caller ≡ ok m)
        × (fn m m.org_id (some m.org_id) s ≡ (ok tt, t))
  unfolding for_org
  in_org-ok (err e) id fn s t nav h = cc
  in_org-ok (ok m) id fn s t nav h =
      (m, refl, settled id s t nav (fn m m.org_id (some m.org_id) s) h)

  with_field-ok :
      (caller : Outcome AuthenticatedMembership) (value message : String)
      (m : AuthenticatedMembership)
      → with_field pg supply caller value message ≡ ok m
      → (caller ≡ ok m) × (is_empty value ≡ false)
  with_field-ok (err e) value message m h = cc
  with_field-ok (ok n) value message m h = elim (Bool-cases (is_empty value)) [
    | inl missing ↦ cc (missing)
    | inr given ↦ (rw given at h, given)
  ]

  module _ (session : Option String) (id : String) (s t : Database) (nav : Navigation) where
    pub approve_request_action-ok :
        approve_request_action pg supply session id s ≡ (ok nav, t)
        → (m : AuthenticatedMembership) × (require_membership_for_action pg session s ≡ ok m)
          × Approved pg supply m m.org_id id s t
    unfolding approve_request_action
    approve_request_action-ok h =
        let (m, is_member, done) = in_org-ok _ id _ s t nav h in
        (m, is_member, approve_tx-ok pg supply m m.org_id id s tt t done)

    pub edit_approve_request_action-ok :
        (form : FormData)
        → edit_approve_request_action pg supply session id form s ≡ (ok nav, t)
        → (m : AuthenticatedMembership) × (require_membership_for_action pg session s ≡ ok m)
          × (is_empty (string_field form "body") ≡ false)
          × Edited pg supply m m.org_id id (string_field form "body") s t
    unfolding edit_approve_request_action
    edit_approve_request_action-ok form h =
        let (m, passed, done) = in_org-ok _ id _ s t nav h in
        let (is_member, given) = with_field-ok _ (string_field form "body") _ m passed in
        (
          m,
          is_member,
          given,
          edit_tx-ok pg supply m m.org_id id (string_field form "body") s tt t done,
        )

    pub reject_request_action-ok :
        (form : FormData)
        → reject_request_action pg supply session id form s ≡ (ok nav, t)
        → (m : AuthenticatedMembership) × (require_membership_for_action pg session s ≡ ok m)
          × (is_empty (string_field form "reason") ≡ false)
          × Rejected pg supply m m.org_id id s (string_field form "reason") t
    unfolding reject_request_action
    reject_request_action-ok form h =
        let (m, passed, done) = in_org-ok _ id _ s t nav h in
        let (is_member, given) = with_field-ok _ (string_field form "reason") _ m passed in
        (
          m,
          is_member,
          given,
          reject_tx-ok pg supply m m.org_id id s (string_field form "reason") tt t done,
        )
