-- ===== src/Tests/SeedRuns.antt =====
-- The seed of an empty database, and of one that holds a part of it.
use frontdesk_intake.Database.Seed.Upserts.{
  backfill_settings_key, document_row, ends_with_md, load_org_settings, org_row, owner_email_for,
  owner_row, upsert_document, upsert_documents, upsert_files, upsert_org, upsert_owner, SeedFiles,
  Draws,
}
use frontdesk_intake.Database.Settings.{entry_value, refine_settings, settings_json, OrgSettings}
use frontdesk_intake.Database.Seed.{SeedCounts, seed_database, no_counts}
use frontdesk_intake.Database.Seed.Extends.{Extends, seed_database-Extends}
use frontdesk_intake.Database.Statements.{
  action_refusal, draft_refusal, insert_action, insert_draft,
}
use frontdesk_intake.Database.Seed.Requests.{
  draft_row, request_row, action_row, complete_request, upsert_demo_request, upsert_demo_requests,
}
use frontdesk_intake.Database.Seed.Inserts.{
  as_owner, insert_document, insert_member, insert_org, insert_seed_request, insert_unless,
  update_settings,
}
use frontdesk_intake.Database.Seed.Present.{has_token}
use frontdesk_intake.Database.Seed.Idempotent.{seed_database_twice}
use frontdesk_intake.Database.Snapshot.{snapshot_json}
use frontdesk_intake.Database.Enums.{status_text}
use frontdesk_intake.Database.Seed.Title.{heading, title_of}
use frontdesk_intake.Database.Seed.Interrupted.{upsert_demo_request-interrupted}
use frontdesk_intake.Database.Seed.Data.{xray_copies}
use Prim.Native.String.{◌++◌ as str_append}
use frontdesk_intake.Tests.Fixture.{clinic}
use frontdesk_intake.Prelude.{sort_texts, refl, true, false, ◌≡◌, String, List, none, some, [], ◌∷◌}
use frontdesk_intake.Database.Rows.{Database}
use frontdesk_intake.Database.Tx.{err, constraint, pure, ◌>>=◌, Outcome, ok}
use frontdesk_intake.Tests.Server.{server}

abbrev settings : OrgSettings
settings = record {
  categories = "scheduling" ∷ "billing" ∷ [];
  lanes = record { key = "billing"; value = "front-desk" } ∷ [];
  category_descriptions = some (record { key = "billing"; value = "Money." } ∷ []);
  similarity_floor = none;
}

abbrev files : SeedFiles
files = record {
  settings_file = λ slug. ok settings;
  read_dir = λ slug. ok ("b.md" ∷ "settings.json" ∷ "a.md" ∷ []);
  read_file = λ slug name. ok name;
  sha256 = λ content. content;
  owner_email = "owner@example.com";
}

-- a new text for each number of rows
abbrev mark {ℓ} : {A : Type ℓ} → List A → String → String
mark [] s = s
mark (x ∷ xs) s = str_append "i" (mark xs s)

abbrev fresh : Database → String
fresh s =
    mark s.orgs
      (mark s.org_members (mark s.requests (mark s.drafts (mark s.actions (mark s.documents "")))))

abbrev draws : Draws
draws = record { uuid = fresh; now = λ s. 100; new_date = λ s. 100 }

abbrev empty : Database
empty = record {
  orgs = [];
  org_members = [];
  api_keys = [];
  requests = [];
  drafts = [];
  actions = [];
  documents = [];
  chunks = [];
}

abbrev seeded : Outcome SeedCounts × Database
seeded = seed_database server files draws none empty

abbrev two_orgs : SeedCounts
two_orgs = record { orgs = 2; owners = 2; documents = 4; requests = 6; settings_backfilled = 0 }

seeded-two_orgs : seed_database server files draws none empty ≡ (ok two_orgs, seeded.1)
unfolding seed_database upsert_org backfill_settings_key upsert_owner upsert_documents
    load_org_settings refine_settings settings_json owner_email_for sort_texts ends_with_md
    upsert_document upsert_files upsert_demo_requests upsert_demo_request complete_request
    insert_org insert_member insert_document insert_seed_request insert_unless update_settings
    org_row owner_row document_row request_row draft_row action_row as_owner insert_draft
    draft_refusal insert_action action_refusal ◌>>=◌ pure title_of entry_value snapshot_json
    status_text heading
seeded-two_orgs = refl

seed_database_twice_example :
    seed_database server files draws none seeded.1 ≡ (ok no_counts, seeded.1)
seed_database_twice_example =
    seed_database_twice server files draws draws empty seeded.1 two_orgs none refl seeded-two_orgs

seed_database-Extends_example : Extends clinic (seed_database server files draws none clinic).1
seed_database-Extends_example = seed_database-Extends server files draws none clinic

-- each row draws the same identifier, so that the second draft is refused
abbrev stuck : Draws
stuck = record { uuid = λ s. "d1"; now = λ s. 100; new_date = λ s. 100 }

abbrev created : Database
created =
    (insert_seed_request (request_row files stuck "dental" settings xray_copies clinic) none
      clinic).1

upsert_demo_request-interrupted_example :
    (upsert_demo_request files stuck "dental" "bright-smile" settings xray_copies none clinic
      ≡ (err (constraint "drafts_pkey"), created))
    × (has_token "seed-bsd-xray-copies" created ≡ true)
    × (created.drafts ≡ clinic.drafts)
    × (upsert_demo_request files stuck "dental" "bright-smile" settings xray_copies none created
        ≡ (ok false, created))
unfolding insert_seed_request insert_unless insert_draft draft_refusal request_row draft_row
    entry_value
upsert_demo_request-interrupted_example =
    upsert_demo_request-interrupted server files stuck stuck none "dental" "bright-smile" settings
      xray_copies clinic created created "d1" (constraint "drafts_pkey") refl refl
