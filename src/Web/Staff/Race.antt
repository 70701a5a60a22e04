-- ===== src/Web/Staff/Race.antt =====
-- web/src/lib/staffActions.ts under concurrency. The transactions run at READ COMMITTED and their
-- reads lock nothing, so another transaction may commit between the guard and the writes.
-- A statement that comes after that commit sees its rows.
pub mod Approvals
pub mod Edits
pub mod Reads
use frontdesk_intake.Prelude.{String, none, some}
use frontdesk_intake.Database.Enums.{approved, approve, edit}
use frontdesk_intake.Database.Rows.{Database, Draft}
use frontdesk_intake.Database.Tx.{Outcome, ok, err, Tx, pure, or_throw, ◌>>=◌, ◌>>◌, Supply}
use frontdesk_intake.Database.Statements.{insert_draft}
use frontdesk_intake.Database.Order.{Postgres}
use frontdesk_intake.Database.Client.{for_org}
use frontdesk_intake.Web.Guard.{AuthenticatedMembership}
use frontdesk_intake.Web.Staff.{
  CurrentState, assert_not_resolved, before_snapshot, latest_draft, load_current_state,
  next_version, no_draft, record_action, resolve_request, staff_draft,
}

-- `loadCurrentState` and the two guards that every action begins with
unfoldable pub open_state : Postgres → Supply → String → String → Tx CurrentState
open_state pg supply request_id org_id = do
  found ← load_current_state pg supply org_id request_id
  state ← or_throw found "Request not found."
  assert_not_resolved state.status
  pure state

-- what an approval reads before its first write
unfoldable pub approve_reads : Postgres → Supply → String → String → Tx (CurrentState × Draft)
approve_reads pg supply request_id org_id = do
  state ← open_state pg supply request_id org_id
  found_draft ← latest_draft pg supply org_id request_id
  latest ← or_throw found_draft no_draft
  pure (state, latest)

unfoldable pub approve_writes :
    Postgres → Supply → AuthenticatedMembership → String → CurrentState × Draft → String → Tx Unit
approve_writes pg supply membership request_id (state, latest) org_id = do
  resolve_request pg supply org_id request_id approved (some (some latest.body))
  record_action pg supply org_id request_id membership approve (before_snapshot state)
      (record {
        status = approved;
        reply_text = some latest.body;
        draft_version = some latest.version;
      })
      none

-- what an edit writes after it read the state
unfoldable pub edit_writes :
    Postgres → Supply → AuthenticatedMembership → String → String → CurrentState → String → Tx Unit
edit_writes pg supply membership request_id body state org_id = do
  let version = next_version state.latest_draft_version
  insert_draft (staff_draft pg supply org_id request_id version body)
  resolve_request pg supply org_id request_id approved (some (some body))
  record_action pg supply org_id request_id membership edit (before_snapshot state)
      (record { status = approved; reply_text = some body; draft_version = some version }) none

-- the transaction goes on at the tables `t` once its reads are done, and rolls back to them
unfoldable pub write_at :
    {A : Type 0}
    → String
    → (A → String → Tx Unit)
    → Outcome A
    → Database
    → Outcome (Unit {0}) × Database
write_at org_id write (err e) t = (err e, t)
write_at org_id write (ok a) t = for_org org_id (write a) t

-- A transaction whose reads see the tables `s` and whose writes meet `t`, which others committed
-- in between.
unfoldable pub overtaken :
    {A : Type 0}
    → String
    → (String → Tx A)
    → (A → String → Tx Unit)
    → Database
    → Database
    → Outcome (Unit {0}) × Database
overtaken org_id read write s t = write_at org_id write (read org_id (some org_id) s).0 t
