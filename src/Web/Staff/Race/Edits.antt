-- ===== src/Web/Staff/Race/Edits.antt =====
-- An edit that another edit of the same request overtakes.
use frontdesk_intake.Web.Staff.{assert_not_resolved, edit_tx, is_resolved}
use frontdesk_intake.Web.Staff.Reads.{load_current_state-eq, request_in}
use frontdesk_intake.Prelude.{Option-cases, Bool-cases, inl, inr, String, ◌≡◌, refl}
use frontdesk_intake.Web.Staff.Race.{overtaken, edit_writes, open_state, write_at}
use frontdesk_intake.Web.Guard.{AuthenticatedMembership}
use frontdesk_intake.Database.Order.{Postgres}
use frontdesk_intake.Database.Client.{for_org}
use frontdesk_intake.Database.Rows.{Database}
use frontdesk_intake.Database.Tx.{◌>>=◌, Supply}

module _ (pg : Postgres) (supply : Supply) (m : AuthenticatedMembership) (o id body : String)
    (s : Database) where
  -- With nothing in between, this is the edit.
  overtaken-edit_tx :
      overtaken o (open_state pg supply id) (edit_writes pg supply m id body) s s
      ≡ for_org o (edit_tx pg supply m id body) s
  unfolding overtaken write_at for_org edit_writes edit_tx open_state assert_not_resolved ◌>>=◌
  overtaken-edit_tx = elim (Option-cases (request_in o id s)) [
    | inl missing ↦ rw (load_current_state-eq pg supply o id s) (rw missing refl)
    | inr (r, found) ↦ elim (Bool-cases (is_resolved r.status)) [
      | inl resolved ↦ rw (load_current_state-eq pg supply o id s) (rw found (rw resolved refl))
      | inr unresolved ↦ rw (load_current_state-eq pg supply o id s) (rw found (rw unresolved refl))
    ]
  ]
