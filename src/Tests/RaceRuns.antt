-- ===== src/Tests/RaceRuns.antt =====
-- Two members of staff who decide the same request of the small clinic at the same time.
use frontdesk_intake.Web.Guard.{AuthenticatedMembership}
use frontdesk_intake.Database.Statements.{apply_set}
use frontdesk_intake.Web.Staff.Race.{overtaken, approve_reads, approve_writes}
use frontdesk_intake.Web.Staff.Approve.{approved_snapshot}
use frontdesk_intake.Web.Staff.Effects.{approved_with, rejected_now, resolved_tables, snapshot_of}
use frontdesk_intake.Web.Staff.Edit.{edited_snapshot, with_draft}
use frontdesk_intake.Web.Staff.Reads.{latest_in, request_in}
use frontdesk_intake.Web.Staff.Race.Approvals.{overtaken-approves_rejected}
use frontdesk_intake.Web.Staff.Reject.{reject_tx-succeeds, rejected_snapshot}
use frontdesk_intake.Prelude.{none, some, ◌≡◌, refl, if◌then◌else◌, nat_beq}
use frontdesk_intake.Database.Enums.{RequestStatus, staff, approve, edit, reject}
use frontdesk_intake.Database.Rows.{Database, Request, Draft}
use frontdesk_intake.Database.Tx.{ok, Supply}
use frontdesk_intake.Tests.Server.{server}
use frontdesk_intake.Tests.Fixture.{clinic, supply, request_row, draft_row}

abbrev other : Supply
other = record { new_date = 99; now = 99; uuid = λ n. if nat_beq n 0 then "v0" else "v1" }

abbrev member : AuthenticatedMembership
member = record { org_id = "dental"; role = staff; email = "ann@dental.test" }

abbrev r1 : Request
r1 = request_row "dental" "r1" "t1" RequestStatus.drafted 50

abbrev d1 : Draft
d1 = draft_row "dental" "r1" "d1" 1 "Come at nine."

abbrev rejected_first : Database
rejected_first =
    resolved_tables other member "dental" "r1" (rejected_now other) reject
      (snapshot_of r1 (latest_in server "dental" "r1" clinic))
      (rejected_snapshot server other member "dental" "r1" clinic) (some "spam") clinic

overtaken-approves_rejected_example :
    (request_in "dental" "r1" rejected_first ≡ some (apply_set (rejected_now other) r1))
    × (overtaken "dental"
          (approve_reads server supply "r1")
          (approve_writes server supply member "r1")
          clinic
          rejected_first
        ≡ (
          ok tt,
          resolved_tables supply member "dental" "r1"
              (approved_with supply "Come at nine.")
              approve
              (snapshot_of r1 (some d1))
              (approved_snapshot server supply member "dental" "r1" clinic d1)
              none
              rejected_first,
        ))
overtaken-approves_rejected_example =
    overtaken-approves_rejected server supply member "dental" "r1" clinic other member
      rejected_first r1 d1 "spam" refl refl refl
      (reject_tx-succeeds server other member "dental" "r1" clinic r1 "spam" refl refl refl) refl

abbrev edited_first : Database
edited_first =
    resolved_tables other member "dental" "r1" (approved_with other "Come at ten.") edit
      (snapshot_of r1 (latest_in server "dental" "r1" clinic))
      (edited_snapshot server other member "dental" "r1" "Come at ten." clinic) none
      (with_draft server other member "dental" "r1" "Come at ten." clinic)
