-- ===== src/Database/Seed/Upserts.antt =====
-- The upserts of orgs, owners and documents of db/src/seed.ts.
use frontdesk_intake.Prelude.{
  sort_texts, ℕ, ◌+◌, String, Bool, true, false, Option, none, some, List, [], ◌∷◌, ◌==◌, first,
  filter, nat_beq, if◌then◌else◌,
}
use Prim.Native.Char.{code}
use Prim.Native.String.{[] as end, ◌∷◌ as char, ◌++◌ as str_append}
use frontdesk_intake.Json.{Json}
use frontdesk_intake.Database.Enums.{DocumentStatus, MemberRole}
use frontdesk_intake.Database.Rows.{Database, Org, OrgMember, Document}
use frontdesk_intake.Database.Tx.{Outcome, ok, Tx, pure, throw, ◌>>=◌}
use frontdesk_intake.Database.Order.{Postgres}
use frontdesk_intake.Database.Settings.{OrgSettings, refine_settings, settings_json}
use frontdesk_intake.Database.Seed.Title.{title_of}
use frontdesk_intake.Database.Seed.Data.{OrgSeed}
use frontdesk_intake.Database.Seed.Inserts.{
  insert_org, insert_member, insert_document, update_settings,
}

-- The files below db/seed and what else the job reads: the shape of a settings.json that zod has
-- checked, the names in a directory, a text, its SHA-256, and SEED_OWNER_EMAIL.
pub record SeedFiles : Type 0 where
  pub settings_file : String → Outcome OrgSettings
  pub read_dir : String → Outcome (List String)
  pub read_file : String → String → Outcome String
  pub sha256 : String → String
  pub owner_email : String

-- What the server draws for a row that goes into given tables, and the process's clock.
pub record Draws : Type 0 where
  pub uuid : Database → String
  pub now : Database → ℕ
  pub new_date : Database → ℕ

-- the address with `+<slug>` before its first `@`, if it has one
abbrev pub plus_address : String → String → Option String
plus_address slug end = none
plus_address slug (char c s) =
    let rest = plus_address slug s in
    if nat_beq (code c) 64
    then some (str_append "+" (str_append slug (char c s)))
    else elim rest [ none ↦ none | some address ↦ some (char c address) ]

unfoldable pub owner_email_for : SeedFiles → String → String
owner_email_for files slug = elim (plus_address slug files.owner_email) [
  | none ↦ files.owner_email
  | some address ↦ address
]

unfoldable pub load_org_settings : SeedFiles → String → Tx OrgSettings
unfolding refine_settings
load_org_settings files slug guc s = (refine_settings (files.settings_file slug), s)

-- `f.endsWith(".md")`
unfoldable pub ends_with_md : String → Bool
ends_with_md end = false
ends_with_md (char c s) = let rest = ends_with_md s in if char c s == ".md" then true else rest

pub record OrgUpsert : Type 0 where
  pub id : String
  pub inserted : Bool

abbrev pub existing_org : String → Tx (Option Org)
existing_org slug guc s = (ok (first (filter (λ o. o.slug == slug) s.orgs)), s)

abbrev pub found_org : String → Option Org → Tx OrgUpsert
found_org slug (some o) = pure (record { id = o.id; inserted = false })
found_org slug none =
    throw (str_append "org " (str_append slug " missing immediately after a no-op insert"))

abbrev pub new_or_existing : String → Option String → Tx OrgUpsert
new_or_existing slug (some id) = pure (record { id = id; inserted = true })
new_or_existing slug none = existing_org slug >>= found_org slug

abbrev pub is_some {ℓ} : {A : Type ℓ} → Option A → Bool
is_some none = false
is_some (some a) = true

abbrev pub is_nonempty {ℓ} : {A : Type ℓ} → List A → Bool
is_nonempty [] = false
is_nonempty (x ∷ xs) = true

unfoldable pub backfill_settings_key : String → String → Option Json → Tx Bool
backfill_settings_key org_id key none = pure false
backfill_settings_key org_id key (some value) = do
  updated ← update_settings org_id key value
  pure (is_nonempty updated)

-- `if (inserted) created += 1`
abbrev pub tally : Bool → ℕ → ℕ
tally true n = n + 1
tally false n = n

module _ (pg : Postgres) (files : SeedFiles) (draws : Draws) where
  unfoldable pub org_row : OrgSeed → OrgSettings → Database → Org
  org_row org settings s = record {
    id = draws.uuid s;
    slug = org.slug;
    name = org.name;
    is_demo = org.is_demo;
    daily_token_budget = 200000;
    settings = settings_json settings;
    created_at = draws.now s;
  }

  unfoldable pub upsert_org : OrgSeed → OrgSettings → Tx OrgUpsert
  upsert_org org settings = do
    inserted ← λ guc s. insert_org (org_row org settings s) guc s
    new_or_existing org.slug inserted

  unfoldable pub owner_row : String → String → Database → OrgMember
  owner_row org_id slug s = record {
    id = draws.uuid s;
    org_id = org_id;
    email = owner_email_for files slug;
    role = MemberRole.owner;
    created_at = draws.now s;
  }

  unfoldable pub upsert_owner : String → String → Tx Bool
  upsert_owner org_id slug = do
    inserted ← λ guc s. insert_member pg (owner_row org_id slug s) guc s
    pure (is_some inserted)

  unfoldable pub document_row : String → String → String → Database → Document
  document_row org_id filename content s = record {
    id = draws.uuid s;
    org_id = org_id;
    title = title_of filename content;
    filename = filename;
    mime = "text/markdown";
    sha256 = files.sha256 content;
    text_content = some content;
    status = DocumentStatus.pending;
    chunk_count = 0;
    error = none;
    created_at = draws.now s;
  }

  unfoldable pub upsert_document : String → String → String → Tx Bool
  upsert_document org_id slug filename = do
    content ← λ guc s. (files.read_file slug filename, s)
    inserted ← λ guc s. insert_document (document_row org_id filename content s) guc s
    pure (is_some inserted)

  unfoldable pub upsert_files : String → String → List String → ℕ → Tx ℕ
  upsert_files org_id slug [] created = pure created
  upsert_files org_id slug (filename ∷ rest) created = do
    inserted ← upsert_document org_id slug filename
    upsert_files org_id slug rest (tally inserted created)

  unfoldable pub upsert_documents : String → String → Tx ℕ
  upsert_documents org_id slug = do
    names ← λ guc s. (files.read_dir slug, s)
    upsert_files org_id slug (sort_texts (filter ends_with_md names)) 0
