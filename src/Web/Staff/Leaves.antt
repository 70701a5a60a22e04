-- ===== src/Web/Staff/Leaves.antt =====
-- A staff transaction on one request leaves the rows of every other request as they are.
use frontdesk_intake.Prelude.{
  String, Bool, false, ◌&&◌, Option, none, some, ◌≡◌, refl, ◌∙◌, ◌==◌, eq_iff, filter,
  filter-update_where, arith,
}
use frontdesk_intake.Database.Enums.{RequestStatus}
use frontdesk_intake.Database.Rows.{Database, Request, Draft, Action}
use frontdesk_intake.Database.Tx.{Tx, Supply, pure, throw, or_throw, ◌>>=◌}
use frontdesk_intake.Database.Statements.{
  select_requests, select_drafts, insert_draft, insert_action, update_requests, RequestSet,
  apply_set, visible,
}
use frontdesk_intake.Database.Order.{Postgres}
use frontdesk_intake.Database.Keeps.{
  Keeps, Keeps-pure, Keeps-throw, Keeps-or_throw, Keeps-bind, Keeps-if,
}
use frontdesk_intake.Web.Guard.{AuthenticatedMembership}
use frontdesk_intake.Web.Staff.{
  state_of, latest_draft, load_current_state, record_action, assert_not_resolved, approve_tx,
  edit_tx, reject_tx, is_request,
}

module _ (org_id id : String) where
  -- the rows of one request are the same before and after
  abbrev pub SameRequest : Database → Database → Type 0
  SameRequest s t =
      filter (is_request org_id id) t.requests ≡ filter (is_request org_id id) s.requests

  SameRequest-refl : (s : Database) → SameRequest s s
  SameRequest-refl s = refl

  SameRequest-trans : (s t u : Database) → SameRequest s t → SameRequest t u → SameRequest s u
  SameRequest-trans s t u h k = k ∙ h

  module _ (o i : String) (apart : (o == org_id && i == id) ≡ false) where
    abbrev pub Leaves : {A : Type 0} → Tx A → Type 0
    Leaves m = Keeps (some o) SameRequest m

    Leaves-bind :
        {A B : Type 0} (m : Tx A) (f : A → Tx B)
        → Leaves m
        → ((a : A) → Leaves (f a))
        → Leaves (m >>= f)
    Leaves-bind = Keeps-bind SameRequest-trans

    Leaves-pure : {A : Type 0} (a : A) → Leaves (pure a)
    Leaves-pure = Keeps-pure SameRequest-refl

    Leaves-throw : {A : Type 0} (message : String) → Leaves (throw {A = A} message)
    Leaves-throw = Keeps-throw SameRequest-refl

    Leaves-or_throw :
        {A : Type 0} (found : Option A) (message : String) → Leaves (or_throw found message)
    Leaves-or_throw = Keeps-or_throw SameRequest-refl

    Leaves-select_requests : (p : Request → Bool) → Leaves (select_requests p)
    unfolding select_requests
    Leaves-select_requests p = record { at = SameRequest-refl }

    Leaves-select_drafts : (p : Draft → Bool) → Leaves (select_drafts p)
    unfolding select_drafts
    Leaves-select_drafts p = record { at = SameRequest-refl }

    Leaves-insert_draft : (row : Draft) → Leaves (insert_draft row)
    unfolding insert_draft
    Leaves-insert_draft row = record { at = λ s. ground arith }

    Leaves-insert_action : (row : Action) → Leaves (insert_action row)
    unfolding insert_action
    Leaves-insert_action row = record { at = λ s. ground arith }

    Leaves-update_requests : (set : RequestSet) → Leaves (update_requests (is_request o i) set)
    unfolding update_requests
    Leaves-update_requests set = record {
      at = λ s.
          filter-update_where (is_request org_id id)
            (λ r. visible (some o) r.org_id && is_request o i r) (apply_set set) s.requests
            (λ r h. ground (
              arith,
              eq_iff r.org_id o,
              eq_iff r.id i,
              eq_iff r.org_id org_id,
              eq_iff r.id id,
              eq_iff o org_id,
              eq_iff i id,
            ));
    }

    ruleset leaves_rules = (
      Leaves-bind, Leaves-pure, Leaves-throw, Leaves-or_throw, Keeps-if, Leaves-select_requests,
      Leaves-select_drafts, Leaves-insert_draft, Leaves-insert_action, Leaves-update_requests,
    )

    module _ (pg : Postgres) (supply : Supply) where
      latest_draft-Leaves : (a b : String) → Leaves (latest_draft pg supply a b)
      unfolding latest_draft
      latest_draft-Leaves a b = search leaves_rules

      state_of-Leaves :
          (a b : String) (found : Option Request) → Leaves (state_of pg supply a b found)
      unfolding state_of
      state_of-Leaves a b none = search leaves_rules
      state_of-Leaves a b (some current) = search (leaves_rules, latest_draft-Leaves)

      load_current_state-Leaves : (a b : String) → Leaves (load_current_state pg supply a b)
      unfolding load_current_state
      load_current_state-Leaves a b = search (leaves_rules, state_of-Leaves)

      assert_not_resolved-Leaves : (status : RequestStatus) → Leaves (assert_not_resolved status)
      unfolding assert_not_resolved
      assert_not_resolved-Leaves status = search leaves_rules

      ruleset staff_leaves =
          (leaves_rules, latest_draft-Leaves, load_current_state-Leaves, assert_not_resolved-Leaves)

      pub approve_tx-Leaves : (m : AuthenticatedMembership) → Leaves (approve_tx pg supply m i o)
      unfolding approve_tx record_action
      approve_tx-Leaves m = search staff_leaves depth 12

      pub edit_tx-Leaves :
          (m : AuthenticatedMembership) (body : String) → Leaves (edit_tx pg supply m i body o)
      unfolding edit_tx record_action
      edit_tx-Leaves m body = search staff_leaves depth 12

      pub reject_tx-Leaves :
          (m : AuthenticatedMembership) (reason : String)
          → Leaves (reject_tx pg supply m i reason o)
      unfolding reject_tx record_action
      reject_tx-Leaves m reason = search staff_leaves depth 12
