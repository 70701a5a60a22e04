-- ===== src/Tests/PurgeRuns.antt =====
-- The purge of the small clinic, and the wait for its database.
use frontdesk_intake.Prelude.{ℕ, ◌+◌, ◌&&◌, some, List, ◌≡◌, refl, any, arith, ltb, if◌then◌else◌}
use frontdesk_intake.Database.Rows.{Database, Request}
use frontdesk_intake.Database.Tx.{Outcome, ok, err, thrown}
use frontdesk_intake.Database.Statements.{select_orgs}
use frontdesk_intake.Database.Purge.{
  PurgeOptions, PurgeOrgResult, purge_demo_orgs, purge_org_requests, is_stale,
}
use frontdesk_intake.Database.Purge.Batch.{DistinctIds}
use frontdesk_intake.Database.Purge.Loop.{purge_org_requests-eq, purged, stale_count}
use frontdesk_intake.Database.Purge.Without.{without}
use frontdesk_intake.Database.Purge.Demo.{purge_demo_orgs-eq, results_each}
use frontdesk_intake.Database.Purge.Spared.{purge_demo_orgs-SameOrg, SameOrg}
use frontdesk_intake.Database.Migrate.{wait_for_database, wait_for_database-reached}
use frontdesk_intake.Tests.Server.{server}
use frontdesk_intake.Tests.Fixture.{clinic}

abbrev options : PurgeOptions
options = record { cutoff = 10; batch_size = some 1 }

distinct : DistinctIds (λ (r : Request). r.id) clinic.requests
distinct = ((refl, (refl, tt)), ((refl, tt), (tt, tt)))

purge_org_requests-eq_example :
    purge_org_requests server 5 "dental" 10 1 0 clinic
    ≡ some (ok (0 + stale_count server "dental" 10 1 clinic), purged server "dental" 10 1 clinic)
purge_org_requests-eq_example =
    purge_org_requests-eq server "dental" 10 1 5 0 clinic (omega arith) distinct (omega arith)

purge_demo_orgs-eq_example :
    purge_demo_orgs server 4 options clinic
    ≡ some (
      ok (results_each 10 (select_orgs (λ o. o.is_demo) clinic) clinic),
      without (λ r. any (λ o. o.is_demo && is_stale o.id 10 r) clinic.orgs) clinic,
    )
purge_demo_orgs-eq_example =
    purge_demo_orgs-eq server 4 options clinic (omega arith) distinct (omega arith)

purge_demo_orgs-SameOrg_example :
    (r : Outcome (List PurgeOrgResult) × Database) × (purge_demo_orgs server 4 options clinic
      ≡ some r)
    × SameOrg "legal" clinic r.1
purge_demo_orgs-SameOrg_example =
    purge_demo_orgs-SameOrg server 4 options clinic "legal" (omega arith) distinct (omega arith)
      refl

-- a database that the third attempt reaches
abbrev third_time : ℕ → Outcome (Unit {0})
third_time n = if ltb n 3 then err (thrown "refused") else ok tt

wait_for_database-reached_example : wait_for_database third_time 5 ≡ some (ok tt)
wait_for_database-reached_example =
    wait_for_database-reached third_time 5 3 (omega arith) (omega arith) refl
