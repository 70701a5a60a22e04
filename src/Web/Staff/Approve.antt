-- ===== src/Web/Staff/Approve.antt =====
-- approveRequestAction: what it finds and does when it succeeds, and when it succeeds.
use frontdesk_intake.Prelude.{
  ◌==◌, any, String, false, none, some, ◌≡◌, refl, sym, ◌∙◌, Bool-cases, Option-cases, inl, inr,
}
use frontdesk_intake.Database.Enums.{approved, approve}
use frontdesk_intake.Database.Rows.{Database, Request, Draft}
use frontdesk_intake.Database.Tx.{ok, err, thrown, Supply, ◌>>=◌}
use frontdesk_intake.Database.Statements.{insert_action}
use frontdesk_intake.Database.Order.{Postgres}
use frontdesk_intake.Web.Guard.{AuthenticatedMembership}
use frontdesk_intake.Web.Staff.{
  record_action, assert_not_resolved, approve_tx, is_resolved, no_draft,
}
use frontdesk_intake.Database.Snapshot.{ActionSnapshot}
use frontdesk_intake.Web.Staff.Final.{approve_tx-RefusesResolved}
use frontdesk_intake.Web.Staff.Reads.{request_in, latest_in, latest_draft-eq, load_current_state-eq}
use frontdesk_intake.Web.Staff.Effects.{
  audit_row, snapshot_of, set_request, update_requests-eq, has_request-set, insert_action-ok,
  insert_action-accepted, approved_with, resolved_tables,
}

module _ (pg : Postgres) (supply : Supply) (m : AuthenticatedMembership) (o id : String)
    (s : Database) where
  approve_tx-missing :
      request_in o id s ≡ none
      → approve_tx pg supply m id o (some o) s ≡ (err (thrown "Request not found."), s)
  unfolding approve_tx ◌>>=◌
  approve_tx-missing missing = rw (load_current_state-eq pg supply o id s) (rw missing refl)

  approve_tx-undrafted :
      (r : Request)
      → request_in o id s ≡ some r
      → is_resolved r.status ≡ false
      → latest_in pg o id s ≡ none
      → approve_tx pg supply m id o (some o) s ≡ (err (thrown no_draft), s)
  unfolding approve_tx assert_not_resolved ◌>>=◌
  approve_tx-undrafted r found unresolved undrafted =
      rw (load_current_state-eq pg supply o id s)
        (rw found (rw unresolved (rw (latest_draft-eq pg supply o id s) (rw undrafted refl))))

  abbrev pub approved_snapshot : Draft → ActionSnapshot
  approved_snapshot d = record {
    status = approved;
    reply_text = some d.body;
    draft_version = some d.version;
  }

  approve_tx-eq :
      (r : Request) (d : Draft)
      → request_in o id s ≡ some r
      → is_resolved r.status ≡ false
      → latest_in pg o id s ≡ some d
      → approve_tx pg supply m id o (some o) s
        ≡ insert_action
            (audit_row supply m o id approve (snapshot_of r (some d)) (approved_snapshot d) none)
            (some o)
            (record s { requests = set_request o id (approved_with supply d.body) s.requests })
  unfolding approve_tx assert_not_resolved record_action ◌>>=◌
  approve_tx-eq r d found unresolved latest = rw (load_current_state-eq pg supply o id s) (
      rw found (
        rw unresolved (
          rw (latest_draft-eq pg supply o id s)
            (rw latest (rw (update_requests-eq o id (approved_with supply d.body) s) refl)))))

  -- what a successful approval has found and done
  pub record Approved (t : Database) : Type 0 where
    pub request : Request
    pub draft : Draft
    pub found : request_in o id s ≡ some request
    pub unresolved : is_resolved request.status ≡ false
    pub latest : latest_in pg o id s ≡ some draft
    pub tables :
        t
        ≡ resolved_tables supply m o id
            (approved_with supply draft.body)
            approve
            (snapshot_of request (some draft))
            (approved_snapshot draft)
            none
            s

  pub approve_tx-ok :
      (u : Unit {0}) (t : Database)
      → approve_tx pg supply m id o (some o) s ≡ (ok u, t)
      → Approved t
  approve_tx-ok u t h = elim (Option-cases (request_in o id s)) [
    | inl missing ↦ cc (approve_tx-missing missing)
    | inr (r, found) ↦ elim (Bool-cases (is_resolved r.status)) [
      | inl resolved ↦ cc ((approve_tx-RefusesResolved pg supply m o id).refuses s r found resolved)
      | inr unresolved ↦ elim (Option-cases (latest_in pg o id s)) [
        | inl undrafted ↦ cc (approve_tx-undrafted r found unresolved undrafted)
        | inr (d, latest) ↦ record {
          request = r;
          draft = d;
          found = found;
          unresolved = unresolved;
          latest = latest;
          tables = insert_action-ok _ _ _ t (sym (approve_tx-eq r d found unresolved latest) ∙ h);
        }
      ]
    ]
  ]

  -- Approval succeeds whenever the request is open, a draft exists and the audit row's identifier
  -- is new.
  pub approve_tx-succeeds :
      (r : Request) (d : Draft)
      → request_in o id s ≡ some r
      → is_resolved r.status ≡ false
      → latest_in pg o id s ≡ some d
      → any (λ a. a.id == supply.uuid 0) s.actions ≡ false
      → approve_tx pg supply m id o (some o) s ≡ (
        ok tt,
        resolved_tables supply m o id
            (approved_with supply d.body)
            approve
            (snapshot_of r (some d))
            (approved_snapshot d)
            none
            s,
      )
  approve_tx-succeeds r d found unresolved latest fresh =
      approve_tx-eq r d found unresolved latest
      ∙ insert_action-accepted _ _ fresh
          (has_request-set o id (approved_with supply d.body) s found)
