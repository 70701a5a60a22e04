-- ===== src/Database/Seed/Present.antt =====
-- What the seed looks for by its natural keys, found in the tables.
use frontdesk_intake.Prelude.{
  sort_texts, String, Bool, true, false, Option, none, some, List, ◌≡◌, ◌⊎◌, ◌==◌, any, All, first,
  filter, ◌&&◌,
}
use frontdesk_intake.Database.Rows.{Database, Org}
use frontdesk_intake.Database.Tx.{ok}
use frontdesk_intake.Database.Order.{Postgres}
use frontdesk_intake.Database.Settings.{OrgSettings, refine_settings, descriptions_json}
use frontdesk_intake.Database.Seed.Data.{OrgSeed, DemoRequestSeed, demo_requests}
use frontdesk_intake.Database.Seed.Inserts.{has_org, lacks_key}
use frontdesk_intake.Database.Seed.Upserts.{SeedFiles, owner_email_for, ends_with_md}

abbrev pub id_of : Option Org → Option String
id_of none = none
id_of (some o) = some o.id

abbrev pub org_id_of_slug : String → Database → Option String
org_id_of_slug slug s = id_of (first (filter (λ o. o.slug == slug) s.orgs))

abbrev pub has_member : Postgres → String → Database → Bool
has_member pg email s = any (λ m. pg.citext_eq m.email email) s.org_members

abbrev pub has_document : String → String → Database → Bool
has_document org_id sha256 s = any (λ d. d.org_id == org_id && d.sha256 == sha256) s.documents

abbrev pub has_token : String → Database → Bool
has_token token s = any (λ r. r.tracking_token == token) s.requests

abbrev pub descriptions_key : String
descriptions_key = "categoryDescriptions"

-- an org with the identifier exists, and none with it lacks the key
abbrev pub IsFilled : String → Database → Type 0
IsFilled id s = (has_org id s ≡ true) × (any (lacks_key id descriptions_key) s.orgs ≡ false)

abbrev pub HasFile : SeedFiles → String → String → Database → String → Type 0
HasFile files id slug s name =
    (content : String) × (files.read_file slug name ≡ ok content)
    × (has_document id (files.sha256 content) s ≡ true)

abbrev pub NeedsNothing : OrgSettings → String → Database → Type 0
NeedsNothing settings id s =
    (descriptions_json settings.category_descriptions ≡ none) ⊎ IsFilled id s

abbrev pub HasRequest : Database → DemoRequestSeed → Type 0
HasRequest s seed = has_token seed.tracking_token s ≡ true

-- All that the seed would create for an org is there.
pub record IsSeeded (pg : Postgres) (files : SeedFiles) (org : OrgSeed) (s : Database)
    : Type 0 where
  pub settings : OrgSettings
  pub loaded : refine_settings (files.settings_file org.slug) ≡ ok settings
  pub id : String
  pub found : org_id_of_slug org.slug s ≡ some id
  pub filled : NeedsNothing settings id s
  pub owner : has_member pg (owner_email_for files org.slug) s ≡ true
  pub names : List String
  pub listed : files.read_dir org.slug ≡ ok names
  pub documents : All (HasFile files id org.slug s) (sort_texts (filter ends_with_md names))
  pub requests : org.is_demo ≡ true → All (HasRequest s) demo_requests
