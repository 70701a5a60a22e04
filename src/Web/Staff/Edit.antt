-- ===== src/Web/Staff/Edit.antt =====
-- editApproveRequestAction: what it finds and does when it succeeds, and when it succeeds.
use frontdesk_intake.Prelude.{
  ℕ, String, false, none, some, [], ◌∷◌, ◌++◌, ◌≡◌, refl, sym, ◌∙◌, Bool-cases, Option-cases, inl,
  inr,
}
use frontdesk_intake.Database.Enums.{edit, approved}
use frontdesk_intake.Database.Rows.{Database, Request, Draft}
use frontdesk_intake.Database.Tx.{ok, err, Error, thrown, Supply, ◌>>=◌}
use frontdesk_intake.Database.Statements.{insert_draft, insert_action}
use frontdesk_intake.Database.Order.{Postgres}
use frontdesk_intake.Web.Guard.{AuthenticatedMembership}
use frontdesk_intake.Web.Staff.{
  next_version, edit_tx, staff_draft, record_action, assert_not_resolved, is_resolved, version_of,
}
use frontdesk_intake.Database.Snapshot.{ActionSnapshot}
use frontdesk_intake.Web.Staff.Final.{edit_tx-RefusesResolved}
use frontdesk_intake.Web.Staff.Reads.{request_in, latest_in, load_current_state-eq}
use frontdesk_intake.Web.Staff.Effects.{
  audit_row, snapshot_of, set_request, update_requests-eq, insert_draft-cases, insert_action-ok,
  approved_with, resolved_tables,
}

module _ (pg : Postgres) (supply : Supply) (m : AuthenticatedMembership) (o id body : String)
    (s : Database) where
  edit_tx-missing :
      request_in o id s ≡ none
      → edit_tx pg supply m id body o (some o) s ≡ (err (thrown "Request not found."), s)
  unfolding edit_tx ◌>>=◌
  edit_tx-missing missing = rw (load_current_state-eq pg supply o id s) (rw missing refl)

  abbrev pub edited_version : ℕ
  edited_version = next_version (version_of (latest_in pg o id s))

  abbrev pub edited_draft : Draft
  edited_draft = staff_draft pg supply o id edited_version body

  abbrev pub edited_snapshot : ActionSnapshot
  edited_snapshot = record {
    status = approved;
    reply_text = some body;
    draft_version = some edited_version;
  }

  -- the tables once the edited draft is in
  abbrev pub with_draft : Database
  with_draft = record s { drafts = s.drafts ++ edited_draft ∷ [] }

  edit_tx-refused :
      (r : Request) (e : Error)
      → request_in o id s ≡ some r
      → is_resolved r.status ≡ false
      → insert_draft edited_draft (some o) s ≡ (err e, s)
      → edit_tx pg supply m id body o (some o) s ≡ (err e, s)
  unfolding edit_tx assert_not_resolved ◌>>=◌
  edit_tx-refused r e found unresolved refused =
      rw (load_current_state-eq pg supply o id s) (rw found (rw unresolved (rw refused refl)))

  pub edit_tx-eq :
      (r : Request)
      → request_in o id s ≡ some r
      → is_resolved r.status ≡ false
      → insert_draft edited_draft (some o) s ≡ (ok tt, with_draft)
      → edit_tx pg supply m id body o (some o) s
        ≡ insert_action
            (audit_row supply m o id edit
              (snapshot_of r (latest_in pg o id s))
              edited_snapshot
              none)
            (some o)
            (record with_draft {
              requests = set_request o id (approved_with supply body) s.requests;
            })
  unfolding edit_tx assert_not_resolved record_action ◌>>=◌
  edit_tx-eq r found unresolved accepted = rw (load_current_state-eq pg supply o id s) (
      rw found (
        rw unresolved
          (rw accepted (rw (update_requests-eq o id (approved_with supply body) with_draft) refl))))

  -- what a successful edit has found and done
  pub record Edited (t : Database) : Type 0 where
    pub request : Request
    pub found : request_in o id s ≡ some request
    pub unresolved : is_resolved request.status ≡ false
    pub tables :
        t
        ≡ resolved_tables supply m o id
            (approved_with supply body)
            edit
            (snapshot_of request (latest_in pg o id s))
            edited_snapshot
            none
            with_draft

  pub edit_tx-ok :
      (u : Unit {0}) (t : Database)
      → edit_tx pg supply m id body o (some o) s ≡ (ok u, t)
      → Edited t
  edit_tx-ok u t h = elim (Option-cases (request_in o id s)) [
    | inl missing ↦ cc (edit_tx-missing missing)
    | inr (r, found) ↦ elim (Bool-cases (is_resolved r.status)) [
      | inl resolved ↦
          cc ((edit_tx-RefusesResolved pg supply m o id body).refuses s r found resolved)
      | inr unresolved ↦ elim (insert_draft-cases edited_draft (some o) s) [
        | inr (e, refused) ↦ cc (edit_tx-refused r e found unresolved refused)
        | inl accepted ↦ record {
          request = r;
          found = found;
          unresolved = unresolved;
          tables = insert_action-ok _ _ _ t (sym (edit_tx-eq r found unresolved accepted) ∙ h);
        }
      ]
    ]
  ]
