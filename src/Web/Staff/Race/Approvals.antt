-- ===== src/Web/Staff/Race/Approvals.antt =====
-- An approval that another decision of the same request overtakes.
use frontdesk_intake.Web.Staff.Race.{overtaken, approve_reads, approve_writes, open_state, write_at}
use frontdesk_intake.Web.Staff.Approve.{approved_snapshot}
use frontdesk_intake.Database.Statements.{apply_set, insert_action}
use frontdesk_intake.Web.Staff.{
  approve_tx, reject_tx, assert_not_resolved, is_resolved, record_action,
}
use frontdesk_intake.Web.Staff.Effects.{
  approved_with, audit_row, has_request-set, insert_action-accepted, rejected_now, request_in-set,
  resolved_tables, set_request, snapshot_of, update_requests-eq,
}
use frontdesk_intake.Web.Staff.Reject.{reject_tx-ok}
use frontdesk_intake.Web.Guard.{AuthenticatedMembership}
use frontdesk_intake.Database.Order.{Postgres}
use frontdesk_intake.Database.Client.{for_org}
use frontdesk_intake.Web.Staff.Reads.{latest_draft-eq, latest_in, load_current_state-eq, request_in}
use frontdesk_intake.Prelude.{
  Option-cases, Bool-cases, inl, inr, ◌==◌, any, String, false, none, some, ◌≡◌, refl,
}
use frontdesk_intake.Database.Enums.{approve}
use frontdesk_intake.Database.Rows.{Database, Request, Draft}
use frontdesk_intake.Database.Tx.{ok, ◌>>=◌, Supply}

module _ (pg : Postgres) (supply : Supply) (m : AuthenticatedMembership) (o id : String)
    (s : Database) where
  approve_reads-eq :
      (r : Request) (d : Draft)
      → request_in o id s ≡ some r
      → is_resolved r.status ≡ false
      → latest_in pg o id s ≡ some d
      → approve_reads pg supply id o (some o) s ≡ (
        ok (
          record {
            status = r.status;
            reply_text = r.reply_text;
            latest_draft_version = some d.version;
          },
          d,
        ),
        s,
      )
  unfolding approve_reads open_state ◌>>=◌ assert_not_resolved
  approve_reads-eq r d found unresolved latest =
      rw (load_current_state-eq pg supply o id s)
        (rw found (rw unresolved (rw (latest_draft-eq pg supply o id s) (rw latest refl))))

  approve_writes-eq :
      (r : Request) (d : Draft) (t : Database)
      → approve_writes pg supply m id
          (
            record {
              status = r.status;
              reply_text = r.reply_text;
              latest_draft_version = some d.version;
            },
            d,
          )
          o
          (some o)
          t
        ≡ insert_action
            (audit_row supply m o id approve
              (snapshot_of r (some d))
              (approved_snapshot pg supply m o id s d)
              none)
            (some o)
            (record t { requests = set_request o id (approved_with supply d.body) t.requests })
  unfolding approve_writes record_action ◌>>=◌
  approve_writes-eq r d t = rw (update_requests-eq o id (approved_with supply d.body) t) refl

  -- With nothing in between, this is the approval.
  overtaken-approve_tx :
      overtaken o (approve_reads pg supply id) (approve_writes pg supply m id) s s
      ≡ for_org o (approve_tx pg supply m id) s
  unfolding overtaken write_at for_org approve_writes approve_reads approve_tx open_state
      assert_not_resolved ◌>>=◌
  overtaken-approve_tx = elim (Option-cases (request_in o id s)) [
    | inl missing ↦ rw (load_current_state-eq pg supply o id s) (rw missing refl)
    | inr (r, found) ↦ elim (Bool-cases (is_resolved r.status)) [
      | inl resolved ↦ rw (load_current_state-eq pg supply o id s) (rw found (rw resolved refl))
      | inr unresolved ↦ rw (load_current_state-eq pg supply o id s) (
          rw found (
            rw unresolved (
              rw (latest_draft-eq pg supply o id s) (elim (Option-cases (latest_in pg o id s)) [
                | inl undrafted ↦ rw undrafted refl
                | inr (d, latest) ↦ rw latest refl
              ]))))
    ]
  ]

  module _ (other : Supply) (m2 : AuthenticatedMembership) (t : Database) where
    -- An approval that read an open request and its draft before a rejection of it committed still
    -- succeeds, if the identifier of its audit row is new. The request, which was rejected in between,
    -- ends approved with the draft's text, and the audit row tells of the state before the rejection.
    pub overtaken-approves_rejected :
        (r : Request) (d : Draft) (reason : String)
        → request_in o id s ≡ some r
        → is_resolved r.status ≡ false
        → latest_in pg o id s ≡ some d
        → reject_tx pg other m2 id reason o (some o) s ≡ (ok tt, t)
        → any (λ a. a.id == supply.uuid 0) t.actions ≡ false
        → (request_in o id t ≡ some (apply_set (rejected_now other) r))
          × (overtaken o (approve_reads pg supply id) (approve_writes pg supply m id) s t ≡ (
            ok tt,
            resolved_tables supply m o id
                (approved_with supply d.body)
                approve
                (snapshot_of r (some d))
                (approved_snapshot pg supply m o id s d)
                none
                t,
          ))
    unfolding overtaken write_at for_org
    overtaken-approves_rejected r d reason found unresolved latest committed fresh =
        let rejection = reject_tx-ok pg other m2 o id s reason tt t committed in
        let now : request_in o id t ≡ some (apply_set (rejected_now other) r) =
          rw rejection.tables (request_in-set o id (rejected_now other) s found) in
        (
          now,
          rw (approve_reads-eq r d found unresolved latest) (
              rw (approve_writes-eq r d t) (
                rw
                  (insert_action-accepted
                    (audit_row supply m o id approve (snapshot_of r (some d))
                      (approved_snapshot pg supply m o id s d) none)
                    (record t {
                      requests = set_request o id (approved_with supply d.body) t.requests;
                    })
                    fresh (has_request-set o id (approved_with supply d.body) t now))
                  refl)),
        )
