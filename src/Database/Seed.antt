-- ===== src/Database/Seed.antt =====
-- db/src/seed.ts: orgs, owners, documents and the demo org's requests, created where they are
-- missing.
pub mod Title
pub mod Data
pub mod Inserts
pub mod Upserts
pub mod Requests
pub mod Walk
pub mod Extends
pub mod Kept
pub mod Present
pub mod Quiet
pub mod Filled
pub mod Moves
pub mod Reached
pub mod Orgs
pub mod Idempotent
pub mod Interrupted
use frontdesk_intake.Prelude.{ℕ, ◌+◌, String, Bool, true, false, List, [], ◌∷◌, if◌then◌else◌}
use frontdesk_intake.Database.Tx.{Tx, pure, ◌>>=◌, ◌>>◌}
use frontdesk_intake.Database.Order.{Postgres}
use frontdesk_intake.Database.Settings.{OrgSettings, descriptions_json}
use frontdesk_intake.Database.Seed.Data.{OrgSeed, org_seeds}
use frontdesk_intake.Database.Seed.Upserts.{
  SeedFiles, Draws, OrgUpsert, tally, load_org_settings, upsert_org, backfill_settings_key,
  upsert_owner, upsert_documents,
}
use frontdesk_intake.Database.Seed.Requests.{upsert_demo_requests}

pub record SeedCounts : Type 0 where
  pub orgs : ℕ
  pub owners : ℕ
  pub documents : ℕ
  pub requests : ℕ
  pub settings_backfilled : ℕ

abbrev pub no_counts : SeedCounts
no_counts = record { orgs = 0; owners = 0; documents = 0; requests = 0; settings_backfilled = 0 }

module _ (pg : Postgres) (files : SeedFiles) (draws : Draws) where
  -- an org that was there is given the key that its settings may lack
  unfoldable pub backfill : OrgUpsert → OrgSettings → Tx Bool
  backfill org settings =
      if org.inserted
      then pure false
      else backfill_settings_key org.id "categoryDescriptions"
          (descriptions_json settings.category_descriptions)

  unfoldable pub demo_part : OrgSeed → String → OrgSettings → Tx ℕ
  demo_part org org_id settings =
      if org.is_demo then upsert_demo_requests files draws org_id org settings else pure 0

  unfoldable pub seed_org : OrgSeed → SeedCounts → Tx SeedCounts
  unfolding backfill demo_part
  seed_org org counts = do
    settings ← load_org_settings files org.slug
    upserted ← upsert_org pg files draws org settings
    filled ← backfill upserted settings
    owner ← upsert_owner pg files draws upserted.id org.slug
    documents ← upsert_documents pg files draws upserted.id org.slug
    requests ← demo_part org upserted.id settings
    pure (record {
      orgs = tally upserted.inserted counts.orgs;
      owners = tally owner counts.owners;
      documents = counts.documents + documents;
      requests = counts.requests + requests;
      settings_backfilled = tally filled counts.settings_backfilled;
    })

  unfoldable pub seed_orgs : List OrgSeed → SeedCounts → Tx SeedCounts
  unfolding seed_org
  seed_orgs [] counts = pure counts
  seed_orgs (org ∷ rest) counts = do counts' ← seed_org org counts; seed_orgs rest counts'

  unfoldable pub seed_database : Tx SeedCounts
  unfolding seed_orgs
  seed_database = seed_orgs org_seeds no_counts
