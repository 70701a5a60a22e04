-- ===== src/Web/Staff/Reject.antt =====
-- rejectRequestAction: what it finds and does when it succeeds, and when it succeeds.
use frontdesk_intake.Prelude.{
  ◌==◌, any, String, false, none, some, ◌≡◌, refl, sym, ◌∙◌, Bool-cases, Option-cases, inl, inr,
}
use frontdesk_intake.Database.Enums.{reject, rejected}
use frontdesk_intake.Database.Rows.{Database, Request}
use frontdesk_intake.Database.Tx.{ok, err, thrown, Supply, ◌>>=◌}
use frontdesk_intake.Database.Statements.{insert_action}
use frontdesk_intake.Database.Order.{Postgres}
use frontdesk_intake.Web.Guard.{AuthenticatedMembership}
use frontdesk_intake.Web.Staff.{
  reject_tx, record_action, assert_not_resolved, is_resolved, version_of,
}
use frontdesk_intake.Database.Snapshot.{ActionSnapshot}
use frontdesk_intake.Web.Staff.Final.{reject_tx-RefusesResolved}
use frontdesk_intake.Web.Staff.Reads.{request_in, latest_in, load_current_state-eq}
use frontdesk_intake.Web.Staff.Effects.{
  audit_row, snapshot_of, set_request, update_requests-eq, has_request-set, insert_action-ok,
  insert_action-accepted, rejected_now, resolved_tables,
}

module _ (pg : Postgres) (supply : Supply) (m : AuthenticatedMembership) (o id : String)
    (s : Database) where
  reject_tx-missing :
      (reason : String)
      → request_in o id s ≡ none
      → reject_tx pg supply m id reason o (some o) s ≡ (err (thrown "Request not found."), s)
  unfolding reject_tx ◌>>=◌
  reject_tx-missing reason missing = rw (load_current_state-eq pg supply o id s) (rw missing refl)

  abbrev pub rejected_snapshot : ActionSnapshot
  rejected_snapshot = record {
    status = rejected;
    reply_text = none;
    draft_version = version_of (latest_in pg o id s);
  }

  reject_tx-eq :
      (r : Request) (reason : String)
      → request_in o id s ≡ some r
      → is_resolved r.status ≡ false
      → reject_tx pg supply m id reason o (some o) s
        ≡ insert_action
            (audit_row supply m o id reject
              (snapshot_of r (latest_in pg o id s))
              rejected_snapshot
              (some reason))
            (some o)
            (record s { requests = set_request o id (rejected_now supply) s.requests })
  unfolding reject_tx assert_not_resolved record_action ◌>>=◌
  reject_tx-eq r reason found unresolved =
      rw (load_current_state-eq pg supply o id s)
        (rw found (rw unresolved (rw (update_requests-eq o id (rejected_now supply) s) refl)))

  -- what a successful rejection has found and done
  pub record Rejected (reason : String) (t : Database) : Type 0 where
    pub request : Request
    pub found : request_in o id s ≡ some request
    pub unresolved : is_resolved request.status ≡ false
    pub tables :
        t
        ≡ resolved_tables supply m o id
            (rejected_now supply)
            reject
            (snapshot_of request (latest_in pg o id s))
            rejected_snapshot
            (some reason)
            s

  pub reject_tx-ok :
      (reason : String) (u : Unit {0}) (t : Database)
      → reject_tx pg supply m id reason o (some o) s ≡ (ok u, t)
      → Rejected reason t
  reject_tx-ok reason u t h = elim (Option-cases (request_in o id s)) [
    | inl missing ↦ cc (reject_tx-missing reason missing)
    | inr (r, found) ↦ elim (Bool-cases (is_resolved r.status)) [
      | inl resolved ↦
          cc ((reject_tx-RefusesResolved pg supply m o id reason).refuses s r found resolved)
      | inr unresolved ↦ record {
        request = r;
        found = found;
        unresolved = unresolved;
        tables = insert_action-ok _ _ _ t (sym (reject_tx-eq r reason found unresolved) ∙ h);
      }
    ]
  ]

  -- Rejection succeeds whenever the request is open and the audit row's identifier is new.
  pub reject_tx-succeeds :
      (r : Request) (reason : String)
      → request_in o id s ≡ some r
      → is_resolved r.status ≡ false
      → any (λ a. a.id == supply.uuid 0) s.actions ≡ false
      → reject_tx pg supply m id reason o (some o) s ≡ (
        ok tt,
        resolved_tables supply m o id
            (rejected_now supply)
            reject
            (snapshot_of r (latest_in pg o id s))
            rejected_snapshot
            (some reason)
            s,
      )
  reject_tx-succeeds r reason found unresolved fresh =
      reject_tx-eq r reason found unresolved
      ∙ insert_action-accepted _ _ fresh (has_request-set o id (rejected_now supply) s found)
