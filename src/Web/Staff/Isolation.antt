-- ===== src/Web/Staff/Isolation.antt =====
-- A staff call touches rows of the caller's own org alone, and nothing when it fails.
use frontdesk_intake.Prelude.{String, Option, none, some, ◌≡◌, refl, is_empty, Bool-cases, inl, inr}
use frontdesk_intake.Database.Enums.{RequestStatus}
use frontdesk_intake.Database.Rows.{Database, Request}
use frontdesk_intake.Database.Tx.{Tx, Outcome, ok, err, Error, Supply, settle}
use frontdesk_intake.Database.Order.{Postgres}
use frontdesk_intake.Database.Client.{for_org}
use frontdesk_intake.Database.Isolation.{
  Isolated, isolated_rules, SameOutside, SameOutside-refl, SameOutside-for_org,
}
use frontdesk_intake.Web.Guard.{AuthenticatedMembership, require_membership_for_action}
use frontdesk_intake.Web.Form.{string_field}
use frontdesk_intake.Web.Staff.{
  state_of, latest_draft, load_current_state, record_action, assert_not_resolved, approve_tx,
  edit_tx, reject_tx, in_org, with_field, finish, approve_request_action,
  edit_approve_request_action, reject_request_action,
}
use frontdesk_intake.Web.Staff.Calls.{StaffCall, approve_call, edit_call, reject_call, call}

module _ {org_id : String} (pg : Postgres) (supply : Supply) where
  latest_draft-Isolated : (o id : String) → Isolated org_id (latest_draft pg supply o id)
  unfolding latest_draft
  latest_draft-Isolated o id = search isolated_rules

  state_of-Isolated :
      (o id : String) (found : Option Request) → Isolated org_id (state_of pg supply o id found)
  unfolding state_of
  state_of-Isolated o id none = search isolated_rules
  state_of-Isolated o id (some current) = search (isolated_rules, latest_draft-Isolated)

  load_current_state-Isolated :
      (o id : String) → Isolated org_id (load_current_state pg supply o id)
  unfolding load_current_state
  load_current_state-Isolated o id = search (isolated_rules, state_of-Isolated)

  assert_not_resolved-Isolated :
      (status : RequestStatus) → Isolated org_id (assert_not_resolved status)
  unfolding assert_not_resolved
  assert_not_resolved-Isolated status = search isolated_rules

  ruleset staff_rules = (
    isolated_rules, latest_draft-Isolated, load_current_state-Isolated,
    assert_not_resolved-Isolated,
  )

  approve_tx-Isolated :
      (m : AuthenticatedMembership) (id o : String) → Isolated org_id (approve_tx pg supply m id o)
  unfolding approve_tx record_action
  approve_tx-Isolated m id o = search staff_rules depth 12

  edit_tx-Isolated :
      (m : AuthenticatedMembership) (id body o : String)
      → Isolated org_id (edit_tx pg supply m id body o)
  unfolding edit_tx record_action
  edit_tx-Isolated m id body o = search staff_rules depth 12

  reject_tx-Isolated :
      (m : AuthenticatedMembership) (id reason o : String)
      → Isolated org_id (reject_tx pg supply m id reason o)
  unfolding reject_tx record_action
  reject_tx-Isolated m id reason o = search staff_rules depth 12

-- The rows that a call may touch are those of the org that the caller is a member of; the call of
-- someone who is no member may touch none.
abbrev pub SameOutsideMember : Outcome AuthenticatedMembership → Database → Database → Type 0
SameOutsideMember (err e) s t = t ≡ s
SameOutsideMember (ok m) s t = SameOutside m.org_id s t

pub finish_state : (id : String) (r : Outcome (Unit {0}) × Database) → (finish id r).1 ≡ r.1
finish_state id (ok done, s) = refl
finish_state id (err e, s) = refl

-- an error of the transaction leaves the tables as they were
abbrev Atomic {ℓ} : {A : Type ℓ} → Database → Outcome A × Database → Type 0
Atomic s (ok a, t) = Unit
Atomic s (err e, t) = t ≡ s

Atomic-settle :
    (s : Database) (id : String) (r : Outcome (Unit {0}) × Database)
    → Atomic s (finish id (settle s r))
Atomic-settle s id (ok a, t) = tt
Atomic-settle s id (err e, t) = refl

Atomic-err {ℓ} :
    {A : Type ℓ} {e : Error} (s : Database) (r : Outcome A × Database)
    → Atomic s r
    → r.0 ≡ err e
    → r.1 ≡ s
Atomic-err s (ok a, t) h k = cc
Atomic-err s (err e, t) h k = h

module _ (pg : Postgres) (supply : Supply) (id : String)
    (fn : AuthenticatedMembership → String → Tx Unit) where
  in_org-SameOutside :
      (caller : Outcome AuthenticatedMembership) (s : Database)
      → ((m : AuthenticatedMembership) (o : String) → Isolated o (fn m o))
      → SameOutsideMember caller s (in_org pg supply caller id fn s).1
  in_org-SameOutside (err e) s h = refl
  in_org-SameOutside (ok m) s h =
      rw (finish_state id (for_org m.org_id (fn m) s)) (SameOutside-for_org (fn m) s (h m m.org_id))

  in_org-Atomic :
      (caller : Outcome AuthenticatedMembership) (s : Database)
      → Atomic s (in_org pg supply caller id fn s)
  unfolding for_org
  in_org-Atomic (err e) s = refl
  in_org-Atomic (ok m) s = Atomic-settle s id (fn m m.org_id (some m.org_id) s)

  in_org-SameOutside_field :
      (caller : Outcome AuthenticatedMembership) (value message : String) (s : Database)
      → ((m : AuthenticatedMembership) (o : String) → Isolated o (fn m o))
      → SameOutsideMember caller s
          (in_org pg supply (with_field pg supply caller value message) id fn s).1
  in_org-SameOutside_field (err e) value message s h = refl
  in_org-SameOutside_field (ok m) value message s h = elim (Bool-cases (is_empty value)) [
    | inl missing ↦ rw missing (SameOutside-refl s)
    | inr given ↦ rw given (in_org-SameOutside (ok m) s h)
  ]

module _ (pg : Postgres) where
  -- the membership that a call resolves for its caller
  unfoldable pub caller : StaffCall → Database → Outcome AuthenticatedMembership
  caller (approve_call supply session id) s = require_membership_for_action pg session s
  caller (edit_call supply session id form) s = require_membership_for_action pg session s
  caller (reject_call supply session id form) s = require_membership_for_action pg session s

  -- A staff call leaves the rows of every org but its caller's as they were, and every row if the
  -- caller is no member.
  pub call-SameOutside :
      (c : StaffCall) (s : Database) → SameOutsideMember (caller c s) s (call pg c s).1
  unfolding call caller approve_request_action edit_approve_request_action reject_request_action
  call-SameOutside (approve_call supply session id) s =
      in_org-SameOutside pg supply id _ (require_membership_for_action pg session s) s
        (λ m o. approve_tx-Isolated pg supply m id o)
  call-SameOutside (edit_call supply session id form) s =
      in_org-SameOutside_field pg supply id _ (require_membership_for_action pg session s) _ _ s
        (λ m o. edit_tx-Isolated pg supply m id (string_field form "body") o)
  call-SameOutside (reject_call supply session id form) s =
      in_org-SameOutside_field pg supply id _ (require_membership_for_action pg session s) _ _ s
        (λ m o. reject_tx-Isolated pg supply m id (string_field form "reason") o)

  call-Atomic : (c : StaffCall) (s : Database) → Atomic s (call pg c s)
  unfolding call approve_request_action edit_approve_request_action reject_request_action
  call-Atomic (approve_call supply session id) s = in_org-Atomic pg supply id _ _ s
  call-Atomic (edit_call supply session id form) s = in_org-Atomic pg supply id _ _ s
  call-Atomic (reject_call supply session id form) s = in_org-Atomic pg supply id _ _ s

  -- A staff call that throws, for whatever reason, has changed no table.
  pub call-err :
      (c : StaffCall) (s : Database) (e : Error) → (call pg c s).0 ≡ err e → (call pg c s).1 ≡ s
  call-err c s e h = Atomic-err s (call pg c s) (call-Atomic c s) h
