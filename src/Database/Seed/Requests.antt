-- ===== src/Database/Seed/Requests.antt =====
-- The demo org's requests in db/src/seed.ts, each with its draft and, if it is approved, its action.
use frontdesk_intake.Prelude.{
  false, ℕ, String, Bool, true, Option, none, some, List, [], ◌∷◌, if◌then◌else◌,
}
use frontdesk_intake.Json.{arr, nil}
use frontdesk_intake.Database.Enums.{RequestStatus, RequestSource, ActionKind}
use frontdesk_intake.Database.Rows.{Database, Request, Draft, Action}
use frontdesk_intake.Database.Tx.{Tx, pure, ◌>>=◌, ◌>>◌}
use frontdesk_intake.Database.Statements.{insert_draft, insert_action}
use frontdesk_intake.Database.Snapshot.{snapshot_json}
use frontdesk_intake.Database.Settings.{OrgSettings, entry_value}
use frontdesk_intake.Database.Seed.Data.{OrgSeed, DemoRequestSeed, demo_requests}
use frontdesk_intake.Database.Seed.Inserts.{insert_seed_request, as_owner}
use frontdesk_intake.Database.Seed.Upserts.{SeedFiles, Draws, owner_email_for, tally}

module _ (files : SeedFiles) (draws : Draws) where
  unfoldable pub request_row : String → OrgSettings → DemoRequestSeed → Database → Request
  request_row org_id settings seed s = record {
    id = draws.uuid s;
    org_id = org_id;
    source = RequestSource.form;
    requester_name = seed.requester_name;
    requester_email = seed.requester_email;
    subject = seed.subject;
    body = seed.body;
    tracking_token = seed.tracking_token;
    status = seed.status;
    category = some seed.category;
    urgency = some seed.urgency;
    summary = some seed.summary;
    lane = entry_value settings.lanes seed.category;
    reply_text = if seed.approved then some seed.draft_body else none;
    resolved_at = if seed.approved then some (draws.new_date s) else none;
    created_at = draws.now s;
  }

  unfoldable pub draft_row : String → String → DemoRequestSeed → Database → Draft
  draft_row org_id request_id seed s = record {
    id = draws.uuid s;
    org_id = org_id;
    request_id = request_id;
    version = 1;
    body = seed.draft_body;
    citations = arr nil;
    confidence = "0";
    model = "seed";
    prompt_version = "seed";
    tokens_in = 0;
    tokens_out = 0;
    created_at = draws.now s;
  }

  unfoldable pub action_row : String → String → String → DemoRequestSeed → Database → Action
  action_row org_id request_id slug seed s = record {
    id = draws.uuid s;
    org_id = org_id;
    request_id = request_id;
    actor_email = owner_email_for files slug;
    kind = ActionKind.approve;
    before = some (
        snapshot_json
          (record { status = RequestStatus.drafted; reply_text = none; draft_version = some 1 }));
    after = some (
        snapshot_json (record {
          status = RequestStatus.approved;
          reply_text = some seed.draft_body;
          draft_version = some 1;
        }));
    reason = none;
    created_at = draws.now s;
  }

  -- the draft and the action of a request that was created just now
  unfoldable pub complete_request : String → String → DemoRequestSeed → Option String → Tx Bool
  complete_request org_id slug seed none = pure false
  complete_request org_id slug seed (some id) = do
    as_owner org_id (λ guc s. insert_draft (draft_row org_id id seed s) guc s)
    if seed.approved
        then as_owner org_id (λ guc s. insert_action (action_row org_id id slug seed s) guc s)
        else pure tt
    pure true

  unfoldable pub upsert_demo_request : String → String → OrgSettings → DemoRequestSeed → Tx Bool
  upsert_demo_request org_id slug settings seed = do
    inserted ← λ guc s. insert_seed_request (request_row org_id settings seed s) guc s
    complete_request org_id slug seed inserted

  unfoldable pub upsert_requests : String → String → OrgSettings → List DemoRequestSeed → ℕ → Tx ℕ
  upsert_requests org_id slug settings [] created = pure created
  upsert_requests org_id slug settings (seed ∷ rest) created = do
    inserted ← upsert_demo_request org_id slug settings seed
    upsert_requests org_id slug settings rest (tally inserted created)

  unfoldable pub upsert_demo_requests : String → OrgSeed → OrgSettings → Tx ℕ
  unfolding upsert_requests
  upsert_demo_requests org_id org settings =
      upsert_requests org_id org.slug settings demo_requests 0
