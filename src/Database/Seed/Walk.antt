-- ===== src/Database/Seed/Walk.antt =====
-- A relation between tables that each statement of the seed respects is respected by the whole job,
-- whether it ends or stops at an error.
use frontdesk_intake.Prelude.{ℕ, String, true, false, Option, none, some, List, [], ◌∷◌, ◌≡◌, refl}
use frontdesk_intake.Json.{Json}
use frontdesk_intake.Database.Rows.{Database, Org, OrgMember, Request, Draft, Action, Document}
use frontdesk_intake.Database.Tx.{Tx, pure, ◌>>=◌}
use frontdesk_intake.Database.Statements.{insert_draft, insert_action}
use frontdesk_intake.Database.Order.{Postgres}
use frontdesk_intake.Database.Keeps.{Keeps, Keeps-pure, Keeps-throw, Keeps-bind, Keeps-if}
use frontdesk_intake.Database.Settings.{OrgSettings, settings_json}
use frontdesk_intake.Database.Seed.Data.{OrgSeed, DemoRequestSeed, demo_requests}
use frontdesk_intake.Database.Seed.Inserts.{
  insert_org, insert_member, insert_document, insert_seed_request, as_owner, update_settings,
}
use frontdesk_intake.Database.Seed.Upserts.{
  SeedFiles, Draws, existing_org, found_org, new_or_existing, upsert_org, org_row,
  backfill_settings_key, upsert_owner, upsert_document, upsert_files, upsert_documents,
  load_org_settings, tally, OrgUpsert,
}
use frontdesk_intake.Database.Seed.Requests.{
  complete_request, upsert_demo_request, upsert_requests, upsert_demo_requests,
}
use frontdesk_intake.Database.Seed.{SeedCounts, seed_org, seed_orgs, backfill, demo_part}

-- the org rows that the seed writes
abbrev pub IsSeedRow : Org → Type 0
IsSeedRow row = (settings : OrgSettings) × (row.settings ≡ settings_json settings)

pub record Respects (pg : Postgres) (R : Database → Database → Type 0) : Type 0 where
  pub itself : (s : Database) → R s s
  pub trans : (s t u : Database) → R s t → R t u → R s u
  pub org :
      (row : Org) (guc : Option String) (s : Database)
      → IsSeedRow row
      → R s (insert_org row guc s).1
  pub member :
      (row : OrgMember) (guc : Option String) (s : Database) → R s (insert_member pg row guc s).1
  pub document :
      (row : Document) (guc : Option String) (s : Database) → R s (insert_document row guc s).1
  pub request :
      (row : Request) (guc : Option String) (s : Database) → R s (insert_seed_request row guc s).1
  pub draft : (row : Draft) (guc : Option String) (s : Database) → R s (insert_draft row guc s).1
  pub action : (row : Action) (guc : Option String) (s : Database) → R s (insert_action row guc s).1
  pub settings :
      (id key : String) (v : Json) (guc : Option String) (s : Database)
      → R s (update_settings id key v guc s).1

module _ (pg : Postgres) (files : SeedFiles) (draws : Draws) {R : Database → Database → Type 0}
    (law : Respects pg R) (guc : Option String) where
  bind :
      {A B : Type 0} (m : Tx A) (f : A → Tx B)
      → Keeps guc R m
      → ((a : A) → Keeps guc R (f a))
      → Keeps guc R (m >>= f)
  bind m f = Keeps-bind law.trans m f

  value : {A : Type 0} (a : A) → Keeps guc R (pure a)
  value a = Keeps-pure law.itself a

  new_or_existing-Keeps : (slug : String) (o : Option String) → Keeps guc R (new_or_existing slug o)
  new_or_existing-Keeps slug (some id) = value _
  new_or_existing-Keeps slug none =
      bind (existing_org slug) (found_org slug) (record { at = law.itself }) (λ o. found o)
    where
      found : (o : Option Org) → Keeps guc R (found_org slug o)
      found none = Keeps-throw law.itself _
      found (some o) = value _

  pub upsert_org-Keeps :
      (org : OrgSeed) (settings : OrgSettings)
      → Keeps guc R (upsert_org pg files draws org settings)
  unfolding upsert_org org_row
  upsert_org-Keeps org settings =
      bind _ _ (record { at = λ s. law.org _ guc s (settings, refl) })
        (new_or_existing-Keeps org.slug)

  backfill_settings_key-Keeps :
      (id key : String) (v : Option Json) → Keeps guc R (backfill_settings_key id key v)
  unfolding backfill_settings_key
  backfill_settings_key-Keeps id key none = value _
  backfill_settings_key-Keeps id key (some v) =
      bind _ _ (record { at = law.settings id key v guc }) (λ ids. value _)

  pub upsert_owner-Keeps : (id slug : String) → Keeps guc R (upsert_owner pg files draws id slug)
  unfolding upsert_owner
  upsert_owner-Keeps id slug = bind _ _ (record { at = λ s. law.member _ guc s }) (λ o. value _)

  pub upsert_document-Keeps :
      (id slug name : String) → Keeps guc R (upsert_document pg files draws id slug name)
  unfolding upsert_document
  upsert_document-Keeps id slug name =
      bind _ _ (record { at = law.itself })
        (λ content. bind _ _ (record { at = λ s. law.document _ guc s }) (λ o. value _))

  pub upsert_files-Keeps :
      (id slug : String) (names : List String) (n : ℕ)
      → Keeps guc R (upsert_files pg files draws id slug names n)
  unfolding upsert_files
  upsert_files-Keeps id slug [] n = value _
  upsert_files-Keeps id slug (name ∷ names) n =
      bind _ _ (upsert_document-Keeps id slug name)
        (λ inserted. upsert_files-Keeps id slug names (tally inserted n))

  pub upsert_documents-Keeps :
      (id slug : String) → Keeps guc R (upsert_documents pg files draws id slug)
  unfolding upsert_documents
  upsert_documents-Keeps id slug =
      bind _ _ (record { at = law.itself }) (λ names. upsert_files-Keeps id slug _ 0)

  pub complete_request-Keeps :
      (id slug : String) (seed : DemoRequestSeed) (o : Option String)
      → Keeps guc R (complete_request files draws id slug seed o)
  unfolding complete_request as_owner
  complete_request-Keeps id slug seed none = value _
  complete_request-Keeps id slug seed (some r) =
      bind _ _ (record { at = λ s. law.draft _ (some id) s })
        (λ done.
          bind _ _
            (Keeps-if seed.approved _ _ (record { at = λ s. law.action _ (some id) s }) (value tt))
            (λ done'. value true))

  pub upsert_demo_request-Keeps :
      (id slug : String) (settings : OrgSettings) (seed : DemoRequestSeed)
      → Keeps guc R (upsert_demo_request files draws id slug settings seed)
  unfolding upsert_demo_request
  upsert_demo_request-Keeps id slug settings seed =
      bind _ _ (record { at = λ s. law.request _ guc s }) (complete_request-Keeps id slug seed)

  pub upsert_requests-Keeps :
      (id slug : String) (settings : OrgSettings) (seeds : List DemoRequestSeed) (n : ℕ)
      → Keeps guc R (upsert_requests files draws id slug settings seeds n)
  unfolding upsert_requests
  upsert_requests-Keeps id slug settings [] n = value n
  upsert_requests-Keeps id slug settings (seed ∷ seeds) n =
      bind _ _ (upsert_demo_request-Keeps id slug settings seed)
        (λ inserted. upsert_requests-Keeps id slug settings seeds (tally inserted n))

  pub backfill-Keeps :
      (u : OrgUpsert) (settings : OrgSettings) → Keeps guc R (backfill pg files draws u settings)
  unfolding backfill
  backfill-Keeps u settings =
      Keeps-if u.inserted _ _ (value false) (backfill_settings_key-Keeps u.id _ _)

  pub demo_part-Keeps :
      (org : OrgSeed) (id : String) (settings : OrgSettings)
      → Keeps guc R (demo_part pg files draws org id settings)
  unfolding demo_part upsert_demo_requests
  demo_part-Keeps org id settings =
      Keeps-if org.is_demo _ _ (upsert_requests-Keeps id org.slug settings demo_requests 0)
        (value 0)

  pub seed_org-Keeps :
      (org : OrgSeed) (counts : SeedCounts) → Keeps guc R (seed_org pg files draws org counts)
  unfolding seed_org load_org_settings
  seed_org-Keeps org counts =
      bind _ _ (record { at = law.itself })
        (λ settings. bind _ _ (upsert_org-Keeps org settings) (λ u.
          bind _ _ (backfill-Keeps u settings) (λ filled.
            bind _ _ (upsert_owner-Keeps u.id org.slug) (λ owner.
              bind _ _ (upsert_documents-Keeps u.id org.slug) (λ documents.
                bind _ _ (demo_part-Keeps org u.id settings) (λ requests. value _))))))

  pub seed_orgs-Keeps :
      (orgs : List OrgSeed) (counts : SeedCounts)
      → Keeps guc R (seed_orgs pg files draws orgs counts)
  unfolding seed_orgs
  seed_orgs-Keeps [] counts = value counts
  seed_orgs-Keeps (org ∷ orgs) counts =
      bind _ _ (seed_org-Keeps org counts) (λ counts'. seed_orgs-Keeps orgs counts')
