-- ===== src/Web/Staff/Race/Reads.antt =====
-- What a staff transaction has read when its guard let it through.
use frontdesk_intake.Web.Staff.Race.{open_state}
use frontdesk_intake.Web.Staff.{assert_not_resolved, is_resolved, version_of}
use frontdesk_intake.Database.Order.{Postgres}
use frontdesk_intake.Web.Staff.Reads.{latest_in, load_current_state-eq, request_in}
use frontdesk_intake.Prelude.{String, false, some, ◌≡◌, refl}
use frontdesk_intake.Database.Rows.{Database, Request}
use frontdesk_intake.Database.Tx.{ok, ◌>>=◌, Supply}

module _ (pg : Postgres) (supply : Supply) (o id : String) (s : Database) where
  pub open_state-eq :
      (r : Request)
      → request_in o id s ≡ some r
      → is_resolved r.status ≡ false
      → open_state pg supply id o (some o) s ≡ (
        ok (record {
          status = r.status;
          reply_text = r.reply_text;
          latest_draft_version = version_of (latest_in pg o id s);
        }),
        s,
      )
  unfolding open_state assert_not_resolved ◌>>=◌
  open_state-eq r found unresolved =
      rw (load_current_state-eq pg supply o id s) (rw found (rw unresolved refl))
